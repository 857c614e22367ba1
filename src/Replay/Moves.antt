-- ===== src/Replay/Moves.antt =====
-- mem-replay.c: a step of a thread inside a call ends the call or comes nearer to its end.
use mem_order.Base.{
  ℕ, suc, ◌+◌, ◌-◌, ◌*◌, ◌≤◌, ◌<◌, ◌==◌, ◌≡◌, ◌⊎◌, inl, inr, true, false, List, get_elem?, length,
  arith, refl, ap, ◌∙◌, subst, update, Bool-cases, Option-cases, leb, ltb_ℤ, eq_ℤ, pos,
  get_elem?-lt,
}
use mem_order.Mem.{ReplayWaitMemop}
use mem_order.Trace.Order.{Recording}
use mem_order.Replay.Defs.{
  Pc, start, arrived, scan, searching, wait_for, ready, loaded, stored, bumped, aborted, Player,
  State, Call, read, write, op_of, objid, after_wait, next_wait_version_log, wait_object_version,
  assert_version, lock_reader_log, next_reader_memop, wait_reader, touch, bump_version, finish_call,
  turn,
}
use mem_order.Replay.Waits.{Shows, Shows-cases, entries_from}
use mem_order.Replay.Invariant.Defs.{Inv, Current, is_aborted, upcoming}

-- How far a place in a call is from the end of the call.
abbrev rank : Pc → ℕ
rank start = 8
rank arrived = 7
rank scan = 6
rank searching = 5
rank (wait_for e) = 7
rank ready = 4
rank (loaded x) = 3
rank stored = 3
rank bumped = 2
rank aborted = 0

-- The steps that thread `t` has at most to the end of its call, on the object `o`: the loop of
-- `wait_reader` takes three steps for an entry of the object's log.
pub budget : ℕ → ℕ → State → ℕ
budget t o s =
    rank (s.thread t).pc + 3 * (length (s.wait_reader_log o).log - (s.wait_reader_log o).n)

-- Thread `t` ends its call, or comes nearer to its end, and no thread goes back.
pub record Moved (t o : ℕ) (s s' : State) : Type 0 where
  pub own :
      ((s'.thread t).memop ≡ suc (s.thread t).memop)
      ⊎ (((s'.thread t).memop ≡ (s.thread t).memop) × (budget t o s' < budget t o s))
  pub kept : (u : ℕ) → (s.thread u).memop ≤ (s'.thread u).memop

moved :
    (t o : ℕ) (s s' : State) (p : Player)
    → ((u : ℕ) → s'.thread u ≡ update s.thread t p u)
    → (p.memop ≡ suc (s.thread t).memop)
      ⊎ ((p.memop ≡ (s.thread t).memop)
          × (rank p.pc + 3 * (length (s'.wait_reader_log o).log - (s'.wait_reader_log o).n)
              < budget t o s))
    → Moved t o s s'
unfolding budget
moved t o s s' p moves h =
    let mine : (t == t) ≡ true = ground arith in
    let own : s'.thread t ≡ p = moves t ∙ rw mine refl in
    record {
      own = elim h [
        | inl e ↦ inl (ap (λ k. k.memop) own ∙ e)
        | inr (e, lt) ↦ inr (ap (λ k. k.memop) own ∙ e, rw own lt)
      ];
      kept = λ u. elim (Bool-cases (t == u)) [
        | inl e ↦
            let same : t ≡ u = ground arith in
            let at : (s'.thread u).memop ≡ p.memop =
              subst (λ w. (s'.thread w).memop ≡ p.memop) same (ap (λ k. k.memop) own) in
            let from : (s.thread t).memop ≡ (s.thread u).memop =
              ap (λ w. (s.thread w).memop) same in
            elim h [ inl e ↦ omega (arith, at, from, e) | inr (e, lt) ↦ omega (arith, at, from, e) ]
        | inr e ↦
            let same : s'.thread u ≡ s.thread u = moves u ∙ rw e refl in
            let at : (s'.thread u).memop ≡ (s.thread u).memop = ap (λ k. k.memop) same in
            omega (arith, at)
      ];
    }

rank-after_wait : (call : Call) → rank (after_wait call) < 7
rank-after_wait (read o) = omega arith
rank-after_wait (write o x) = omega arith

module _ {r : Recording} {merged : ℕ → List ReplayWaitMemop} (s : State) (inv : Inv r merged s)
    (t : ℕ) (call : Call) (v : ℕ) (cur : Current r t (s.thread t) (op_of call) (objid call) v) where
  -- The object has reached the version that the access read.
  start-Moved :
      v ≤ s.obj_version (objid call)
      → (s.thread t).pc ≡ start
      → Moved t (objid call) s (wait_object_version s t call)
  unfolding wait_object_version budget
  start-Moved reached q =
      elim (Bool-cases (eq_ℤ (pos (s.thread t).memop) (s.thread t).wait_version.memop)) [
        | inl now ↦
            elim (Bool-cases
              (ltb_ℤ (pos (s.obj_version (objid call))) (s.thread t).wait_version.version)) [
                | inl below ↦
                    let sh =
                      subst
                        (λ pc.
                          Shows (s.thread t).wait_version (s.thread t).wait_version_log
                            (entries_from (r.accesses t) (upcoming pc (s.thread t).memop)))
                        q (inv.threads t).shows in
                    elim (Shows-cases (r.accesses t) (s.thread t).memop (s.thread t).wait_version
                      (s.thread t).wait_version_log cur sh) [
                        | inl (passed, _, _) ↦ absurd cc
                        | inr (here, _) ↦
                            let at : (s.thread t).wait_version.version ≡ pos v =
                              ap (λ w. w.version) here in
                            absurd (ground (arith, reached))
                      ]
                | inr past ↦
                    rw (now, past)
                      (moved t (objid call) s _ _ (λ u. refl) (inr (refl, rw q (omega arith))))
              ]
        | inr other ↦ rw other (
            moved t (objid call) s _ _ (λ u. refl)
              (inr (refl, rw q (omega (arith, rank-after_wait call)))))
      ]

  scan-Moved : (s.thread t).pc ≡ scan → Moved t (objid call) s (lock_reader_log s t call)
  unfolding lock_reader_log budget
  scan-Moved q =
      let mine : (objid call == objid call) ≡ true = ground arith in
      elim (Bool-cases (s.wait_reader_log (objid call)).mutex) [
        | inl held ↦
            rw held (moved t (objid call) s _ _ (λ u. refl) (inr (refl, rw q (omega arith))))
        | inr free ↦
            rw free
              (moved t (objid call) s _ _ (λ u. refl) (inr (refl, rw (q, mine) (omega arith))))
      ]

  arrived-Moved : (s.thread t).pc ≡ arrived → Moved t (objid call) s (assert_version s t call)
  unfolding assert_version budget
  arrived-Moved q =
      elim (Bool-cases
        (eq_ℤ (pos (s.obj_version (objid call))) (s.thread t).wait_version.version)) [
          | inl now ↦
              elim (Option-cases
                (next_wait_version_log (s.thread t).wait_version (s.thread t).wait_version_log)) [
                  | inl z ↦
                      rw (now, z)
                        (moved t (objid call) s _ _ (λ u. refl) (inr (refl, rw q (omega arith))))
                  | inr ((wv, rest), z) ↦
                      rw (now, z)
                        (moved t (objid call) s _ _ (λ u. refl)
                          (inr (refl, rw q (omega (arith, rank-after_wait call)))))
                ]
          | inr other ↦
              rw other (moved t (objid call) s _ _ (λ u. refl) (inr (refl, rw q (omega arith))))
        ]

  -- The read that the entry names is past.
  wait_for-Moved :
      (e : ReplayWaitMemop)
      → e.memop < (s.thread e.tid).memop
      → (s.thread t).pc ≡ wait_for e
      → Moved t (objid call) s (wait_reader s t call e)
  unfolding wait_reader budget
  wait_for-Moved e past q =
      let done : leb (s.thread e.tid).memop e.memop ≡ false = ground arith in
      rw done (moved t (objid call) s _ _ (λ u. refl) (inr (refl, rw q (omega arith))))

  touch-Moved : (c : Call) (o : ℕ) → (s.thread t).pc ≡ ready → Moved t o s (touch s t c)
  unfolding touch budget
  touch-Moved (read i) o q = moved t o s _ _ (λ u. refl) (inr (refl, rw q (omega arith)))
  touch-Moved (write i x) o q = moved t o s _ _ (λ u. refl) (inr (refl, rw q (omega arith)))

  bump-Moved : (s.thread t).pc ≡ stored → Moved t (objid call) s (bump_version s t call)
  unfolding bump_version budget
  bump-Moved q = moved t (objid call) s _ _ (λ u. refl) (inr (refl, rw q (omega arith)))

  finish-Moved : (reads : List ℕ) → Moved t (objid call) s (finish_call s t call reads)
  unfolding finish_call
  finish-Moved reads = moved t (objid call) s _ _ (λ u. refl) (inl refl)

  searching-Moved :
      (s.thread t).pc ≡ searching → Moved t (objid call) s (next_reader_memop s t call)
  unfolding next_reader_memop budget
  searching-Moved q =
      let mine : (objid call == objid call) ≡ true = ground arith in
      let l = s.wait_reader_log (objid call) in
      elim (Bool-cases (ltb_ℤ (pos l.n) l.size)) [
        | inr over ↦
            rw over
              (moved t (objid call) s _ _ (λ u. refl) (inr (refl, rw (q, mine) (omega arith))))
        | inl room ↦ elim (Option-cases (get_elem? l.log l.n)) [
          | inl z ↦
              rw (room, z) (moved t (objid call) s _ _ (λ u. refl) (inr (refl, rw q (omega arith))))
          | inr (e, z) ↦ elim (Bool-cases (leb (s.obj_version (objid call)) e.version)) [
            | inr low ↦
                rw (room, z, low)
                  (moved t (objid call) s _ _ (λ u. refl) (inr (refl, rw q (omega arith))))
            | inl le ↦ elim (Bool-cases (s.obj_version (objid call) == e.version)) [
              | inr later ↦
                  rw (room, z, le, later)
                    (moved t (objid call) s _ _ (λ u. refl)
                      (inr (refl, rw (q, mine) (omega arith))))
              | inl same ↦
                  rw (room, z, le, same)
                    (moved t (objid call) s _ _ (λ u. refl)
                      (inr (refl, rw (q, mine) (omega (arith, get_elem?-lt l.log l.n z)))))
            ]
          ]
        ]
      ]

  -- A thread that has not failed, whose object has reached the version of its access, and the read
  -- that it waits for is past.
  pub turn-Moved :
      v ≤ s.obj_version (objid call)
      → ((e : ReplayWaitMemop) → (s.thread t).pc ≡ wait_for e → e.memop < (s.thread e.tid).memop)
      → (pc : Pc) → (s.thread t).pc ≡ pc
      → Moved t (objid call) s (turn s t call pc)
  unfolding turn
  turn-Moved reached past start q = start-Moved reached q
  turn-Moved reached past arrived q = arrived-Moved q
  turn-Moved reached past scan q = scan-Moved q
  turn-Moved reached past searching q = searching-Moved q
  turn-Moved reached past (wait_for e) q = wait_for-Moved e (past e q) q
  turn-Moved reached past ready q = touch-Moved call (objid call) q
  turn-Moved reached past (loaded x) q = finish-Moved _
  turn-Moved reached past stored q = bump-Moved q
  turn-Moved reached past bumped q = finish-Moved _
  turn-Moved reached past aborted q =
      let sane = (inv.threads t).sane in
      let failed : is_aborted (s.thread t).pc ≡ true = rw q in absurd cc
