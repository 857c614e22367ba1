-- ===== src/Replay/Values/Touch.antt =====
-- mem-replay.c: the access to `*addr`, the new version and the end of a call, with the values.
use mem_order.Base.{
  ℕ, ◌+◌, ◌≡◌, inl, inr, List, [], ◌∷◌, ◌++◌, take, arith, refl, update, ap, ◌∙◌, subst, sym,
  ℕ_discrete,
}
use mem_order.Mem.{ReplayWaitMemop}
use mem_order.Trace.{rd, wr}
use mem_order.Trace.Order.{Recording}
use mem_order.Replay.Defs.{
  ready, loaded, stored, bumped, Player, State, Call, read, write, op_of, objid, touch,
  bump_version, finish_call,
}
use mem_order.Replay.Logs.{MergedLogs}
use mem_order.Replay.Invariant.Defs.{Inv, Current}
use mem_order.Replay.Invariant.Readers.{Bounded, readers_done, same_writer}
use mem_order.Replay.Invariant.Steps.{update_all}
use mem_order.Replay.Values.Steps.{Values, Storing-update, plain_step}
use mem_order.Replay.Values.{reads_of, reads_of-read, reads_of-write}

module _ {r : Recording} {nobj : ℕ} {merged : ℕ → List ReplayWaitMemop}
    (logs : MergedLogs r nobj merged) (bounded : Bounded r nobj) {content : ℕ → ℕ → ℕ} (s : State)
    (inv : Inv r merged s) (val : Values r content s) (t : ℕ) where
  abbrev p : Player
  p = s.thread t

  -- What a read finds in memory is the value of the version that it read when it was recorded.
  read_value : (o v : ℕ) → Current r t p rd o v → p.pc ≡ ready → s.memory o ≡ content o v
  read_value o v cur q =
      let here : s.obj_version o ≡ v = (inv.threads t).at_version rd o v cur (rw q) in
      elim (val.in_memory o) [
        | inl e ↦ e ∙ ap (content o) here
        | inr (u, w, pc, cu) ↦
            let same : w ≡ v = omega (arith, (inv.threads u).at_version wr o w cu (rw pc), here) in
            let cu' : Current r u (s.thread u) wr o v =
              subst (λ x. Current r u (s.thread u) wr o x) same cu in
            absurd (omega (arith, readers_done logs bounded s inv u o v cu' (rw pc) t p.memop cur))
      ]

  touch_read-Values :
      (o v : ℕ) → Current r t p rd o v → p.pc ≡ ready → Values r content (touch s t (read o))
  unfolding touch
  touch_read-Values o v cur q = record {
    reads =
        update_all (λ u k. k.reads ≡ reads_of content (take k.memop (r.accesses u))) s.thread t _
          (val.reads t) (λ u ne. val.reads u);
    in_flight =
        update_all
          (λ u k. (x o' w : ℕ) → k.pc ≡ loaded x → Current r u k rd o' w → x ≡ content o' w)
          s.thread t _ (λ x o' w h c. ground (arith, read_value o v cur q))
          (λ u ne. val.in_flight u);
    in_store =
        update_all
          (λ u k.
            (o' w : ℕ) → k.pc ≡ stored → Current r u k wr o' w → s.memory o' ≡ content o' (w + 2))
          s.thread t _ (λ o' w h. cc) (λ u ne. val.in_store u);
    in_memory = λ o'. elim (val.in_memory o') [
      | inl e ↦ inl e
      | inr st ↦ inr (Storing-update r s.thread t _ o' (λ w h c. absurd (ground arith)) st)
    ];
  }

  touch_write-Values :
      (o x v : ℕ)
      → Current r t p wr o v
      → p.pc ≡ ready
      → content o (v + 2) ≡ x
      → Values r content (touch s t (write o x))
  unfolding touch
  touch_write-Values o x v cur q new = record {
    reads =
        update_all (λ u k. k.reads ≡ reads_of content (take k.memop (r.accesses u))) s.thread t _
          (val.reads t) (λ u ne. val.reads u);
    in_flight =
        update_all
          (λ u k. (y o' w : ℕ) → k.pc ≡ loaded y → Current r u k rd o' w → y ≡ content o' w)
          s.thread t _ (λ y o' w h. cc) (λ u ne. val.in_flight u);
    in_store =
        update_all
          (λ u k.
            (o' w : ℕ)
            → k.pc ≡ stored
            → Current r u k wr o' w
            → update s.memory o x o' ≡ content o' (w + 2))
          s.thread t _ (λ o' w h c. ground (arith, new))
          (λ u ne o' w h c. elim (ℕ_discrete o o') [
            | yes same ↦
                absurd (ne (sym (same_writer s inv t u o v w (rw q) (rw h) cur (rw same c))))
            | no other ↦ ground (arith, val.in_store u o' w h c)
          ]);
    in_memory = λ o'. elim (ℕ_discrete o o') [
      | yes same ↦ inr (t, v, ground arith, ground arith)
      | no other ↦ elim (val.in_memory o') [
        | inl e ↦ inl (ground arith)
        | inr st ↦ inr (Storing-update r s.thread t _ o' (λ w h c. absurd (ground arith)) st)
      ]
    ];
  }

  pub touch-Values :
      (call : Call) (v : ℕ)
      → Current r t p (op_of call) (objid call) v
      → ((o x : ℕ) → call ≡ write o x → content o (v + 2) ≡ x)
      → p.pc ≡ ready
      → Values r content (touch s t call)
  touch-Values (read o) v cur new q = touch_read-Values o v cur q
  touch-Values (write o x) v cur new q = touch_write-Values o x v cur q (new o x refl)

  pub bump_version-Values :
      (call : Call) (v : ℕ)
      → op_of call ≡ wr
      → Current r t p wr (objid call) v
      → p.pc ≡ stored
      → Values r content (bump_version s t call)
  unfolding bump_version
  bump_version-Values call v is_wr cur q =
      let here : s.obj_version (objid call) ≡ v =
        (inv.threads t).at_version wr (objid call) v cur (rw q) in
      let new = val.in_store t (objid call) v q cur in
      record {
        reads =
            update_all (λ u k. k.reads ≡ reads_of content (take k.memop (r.accesses u))) s.thread t
              _ (val.reads t) (λ u ne. val.reads u);
        in_flight =
            update_all
              (λ u k. (y o' w : ℕ) → k.pc ≡ loaded y → Current r u k rd o' w → y ≡ content o' w)
              s.thread t _ (λ y o' w h. cc) (λ u ne. val.in_flight u);
        in_store =
            update_all
              (λ u k.
                (o' w : ℕ)
                → k.pc ≡ stored
                → Current r u k wr o' w
                → s.memory o' ≡ content o' (w + 2))
              s.thread t _ (λ o' w h. cc) (λ u ne. val.in_store u);
        in_memory = λ o'. elim (ℕ_discrete (objid call) o') [
          | yes same ↦ inl (ground (arith, new, here))
          | no other ↦ elim (val.in_memory o') [
            | inl e ↦ inl (ground arith)
            | inr st ↦
                inr (Storing-update r s.thread t _ o' (λ w h c. absurd (other (ground arith))) st)
          ]
        ];
      }

  pub finish_read-Values :
      (call : Call) (x o v : ℕ)
      → Current r t p rd o v
      → p.pc ≡ loaded x
      → Values r content (finish_call s t call (p.reads ++ (x ∷ [])))
  unfolding finish_call
  finish_read-Values call x o v cur q =
      plain_step s val t _ (λ h. cc) refl
        (ground (
          arith,
          val.reads t,
          val.in_flight t x o v q cur,
          reads_of-read content (r.accesses t) p.memop cur,
        ))

  pub finish_write-Values :
      (call : Call) (o v : ℕ)
      → Current r t p wr o v
      → p.pc ≡ bumped
      → Values r content (finish_call s t call p.reads)
  unfolding finish_call
  finish_write-Values call o v cur q =
      plain_step s val t _ (λ h. cc) refl
        (val.reads t ∙ sym (reads_of-write content (r.accesses t) p.memop cur))
