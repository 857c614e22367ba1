-- ===== src/Replay/Invariant/Turns.antt =====
-- mem-replay.c: each step of `mem_read` and `mem_write` keeps the invariant.
use mem_order.Base.{
  ℕ, suc, ◌≤◌, ◌≡◌, inl, inr, true, false, List, arith, refl, subst, Bool-cases, leb, ltb_ℤ, eq_ℤ,
  pos,
}
use mem_order.Mem.{ReplayWaitMemop}
use mem_order.Trace.{wr}
use mem_order.Trace.Order.{Recording}
use mem_order.Replay.Defs.{
  Pc, start, arrived, scan, searching, wait_for, Player, State, Call, op_of, objid, set_player,
  wait_object_version, assert_version, wait_reader,
}
use mem_order.Replay.Waits.{
  get_elem?-lt, Shows, Shows-cases, entries_from, next_wait_version_log-entries_from,
}
use mem_order.Replay.Invariant.Defs.{
  ThreadInv, Current, Inv, is_searching, is_quiet, finished, upcoming,
}
use mem_order.Replay.Invariant.Threads.{move, past_wait}
use mem_order.Replay.Invariant.Steps.{set_player-Inv}

module _ {r : Recording} {merged : ℕ → List ReplayWaitMemop} (s : State) (inv : Inv r merged s)
    (t : ℕ) (call : Call) (v : ℕ) (cur : Current r t (s.thread t) (op_of call) (objid call) v) where
  abbrev p : Player
  p = s.thread t

  -- What is shown before the version of the current access has been waited for.
  pub shown :
      (pc : Pc)
      → p.pc ≡ pc
      → Shows p.wait_version p.wait_version_log (entries_from (r.accesses t) (upcoming pc p.memop))
  shown pc q =
      subst
        (λ x.
          Shows p.wait_version p.wait_version_log
            (entries_from (r.accesses t) (upcoming x p.memop)))
        q (inv.threads t).shows

  version-le : finished p.pc p.memop ≡ p.memop → s.obj_version (objid call) ≤ v
  version-le f = (inv.threads t).upper p.memop (op_of call) (objid call) v (omega arith) cur

  quiet-searching : (pc : Pc) → is_quiet pc ≡ true → is_searching pc ≡ false
  quiet-searching searching h = cc
  quiet-searching _ h = refl

  -- A step outside `next_reader_memop` and its loop, which changes this thread alone.
  pub quiet_step :
      (p' : Player)
      → is_quiet p.pc ≡ true
      → p.memop ≤ p'.memop
      → ThreadInv r s.obj_version s.wait_reader_log t p'
      → Inv r merged (set_player s t p')
  quiet_step p' h le inv' =
      set_player-Inv s t p' inv inv' le (quiet-searching p.pc h)
        (λ e w. let loud : is_quiet p.pc ≡ false = rw w in cc)

  pub wait_object_version-Inv : p.pc ≡ start → Inv r merged (wait_object_version s t call)
  unfolding wait_object_version
  wait_object_version-Inv q =
      let f : finished p.pc p.memop ≡ p.memop = rw q in
      elim (Shows-cases (r.accesses t) p.memop p.wait_version p.wait_version_log cur
        (shown start q)) [
          | inl (other, lastv, sh) ↦
              let e : s.obj_version (objid call) ≡ v =
                omega (arith, version-le f, (inv.threads t).last (objid call)) in
              rw other (
                quiet_step _ (rw q) (omega arith) (
                  past_wait r s.obj_version s.wait_reader_log t p (inv.threads t) call v cur _ _ f e
                    sh))
          | inr (now, rest) ↦
              let test : eq_ℤ (pos p.memop) p.wait_version.memop ≡ true = ground arith in
              elim (Bool-cases (ltb_ℤ (pos (s.obj_version (objid call))) p.wait_version.version)) [
                | inl below ↦ rw (test, below) inv
                | inr reached ↦
                    let e : s.obj_version (objid call) ≡ v = ground (arith, version-le f) in
                    rw (test, reached)
                      (quiet_step _ (rw q) (omega arith) (
                        move r s.obj_version s.wait_reader_log t p (inv.threads t) call v cur
                          arrived _ _ refl refl f (λ _. e) (λ h. cc) (λ h. cc) (λ _ h. cc)
                          (shown start q) (λ h. ground arith)))
              ]
        ]

  pub assert_version-Inv : p.pc ≡ arrived → Inv r merged (assert_version s t call)
  unfolding assert_version
  assert_version-Inv q =
      let f : finished p.pc p.memop ≡ p.memop = rw q in
      let e : s.obj_version (objid call) ≡ v =
        (inv.threads t).at_version (op_of call) (objid call) v cur (rw q) in
      elim (Shows-cases (r.accesses t) p.memop p.wait_version p.wait_version_log cur
        (shown arrived q)) [
          | inl (other, lastv, sh) ↦ absurd (ground (arith, (inv.threads t).arrived_at (rw q)))
          | inr (now, rest) ↦
              let test : eq_ℤ (pos (s.obj_version (objid call))) p.wait_version.version ≡ true =
                ground arith in
              let (wv, rest', found, sh) =
                next_wait_version_log-entries_from (r.accesses t) (suc p.memop) p.wait_version
                  p.wait_version_log (get_elem?-lt (r.accesses t) p.memop cur) rest in
              rw (test, found)
                (quiet_step _ (rw q) (omega arith) (
                  past_wait r s.obj_version s.wait_reader_log t p (inv.threads t) call v cur wv
                    rest' f e sh))
        ]

  -- The inner loop of `wait_reader`.
  pub wait_reader-Inv :
      (e : ReplayWaitMemop) → p.pc ≡ wait_for e → Inv r merged (wait_reader s t call e)
  unfolding wait_reader
  wait_reader-Inv e q = elim (Bool-cases (leb (s.thread e.tid).memop e.memop)) [
    | inl wait ↦ rw wait inv
    | inr past ↦
        let is_wr : op_of call ≡ wr =
          (inv.threads t).writing (op_of call) (objid call) v cur (rw q) in
        let here : s.obj_version (objid call) ≡ v =
          (inv.threads t).at_version (op_of call) (objid call) v cur (rw q) in
        rw past (
          set_player-Inv s t _ inv
            (move r s.obj_version s.wait_reader_log t p (inv.threads t) call v cur scan _ _ refl
              refl (rw q) (λ _. here) (λ _. is_wr) (λ h. cc) (λ _ h. cc) (shown (wait_for e) q)
              (λ h. cc))
            (omega arith) (rw q) (λ e' w. ground arith))
  ]
