-- ===== src/Replay/Invariant/Readers.antt =====
-- mem-replay.c: one writer at a time passes `wait_object_version` for an object, and when
-- `wait_reader` returns, every read of the present version is past.
use mem_order.Base.{
  ℕ, ◌<◌, ◌≡◌, inl, inr, true, false, List, some, get_elem?, arith, refl, subst, sym, ap, dec_lt,
}
use mem_order.Mem.{ReplayWaitMemop}
use mem_order.Trace.{Op, rd, wr, access}
use mem_order.Trace.Order.{Recording}
use mem_order.Record.Reads.{read-logged}
use mem_order.Replay.Defs.{Pc, wait_for, ready, stored, State}
use mem_order.Replay.Logs.{MergedLogs}
use mem_order.Replay.Invariant.Defs.{Current, Inv, holds_version, is_cleared}

-- The recording's objects are lower than `nobj`.
abbrev pub Bounded : Recording → ℕ → Type 0
Bounded r nobj =
    (t m : ℕ) (op : Op) (o v : ℕ) → get_elem? (r.accesses t) m ≡ some (access op o v) → o < nobj

cleared_holds : (pc : Pc) → is_cleared pc ≡ true → holds_version pc ≡ true
cleared_holds ready h = refl
cleared_holds stored h = refl
cleared_holds _ h = ground arith

module _ {r : Recording} {merged : ℕ → List ReplayWaitMemop} (s : State)
    (inv : Inv r merged s) where
  -- Two threads past the wait for a version, both in a write to one object, are one thread.
  pub same_writer :
      (t u o v w : ℕ)
      → holds_version (s.thread t).pc ≡ true
      → holds_version (s.thread u).pc ≡ true
      → Current r t (s.thread t) wr o v
      → Current r u (s.thread u) wr o w
      → t ≡ u
  same_writer t u o v w ht hu ct cu =
      let same : w ≡ v =
        omega (
          arith,
          (inv.threads t).at_version wr o v ct ht,
          (inv.threads u).at_version wr o w cu hu,
        ) in
      (r.write_once t u (s.thread t).memop (s.thread u).memop o v ct
        (subst (λ x. Current r u (s.thread u) wr o x) same cu)).0

  not_waiting :
      (t o v : ℕ) (e : ReplayWaitMemop)
      → Current r t (s.thread t) wr o v
      → is_cleared (s.thread t).pc ≡ true
      → (u w : ℕ) → (s.thread u).pc ≡ wait_for e
      → Current r u (s.thread u) wr o w
      → ⊥
  not_waiting t o v e ct cl u w pc cu =
      let same = same_writer t u o v w (cleared_holds (s.thread t).pc cl) (rw pc) ct cu in
      let clu : is_cleared (s.thread u).pc ≡ true =
        subst (λ x. is_cleared (s.thread x).pc ≡ true) same cl in
      let no_clear : is_cleared (s.thread u).pc ≡ false = rw pc in cc

module _ {r : Recording} {nobj : ℕ} {merged : ℕ → List ReplayWaitMemop}
    (logs : MergedLogs r nobj merged) (bounded : Bounded r nobj) (s : State)
    (inv : Inv r merged s) where
  -- Once a write to `o` is past `wait_reader`, every recorded read of its version is past.
  pub readers_done :
      (t o v : ℕ)
      → Current r t (s.thread t) wr o v
      → is_cleared (s.thread t).pc ≡ true
      → (u m : ℕ) → get_elem? (r.accesses u) m ≡ some (access rd o v)
      → m < (s.thread u).memop
  readers_done t o v ct cl u m h =
      elim (read-logged nobj o v (bounded u m rd o v h) (r.accesses u) m h) [
        | inl (k, le, mem) ↦
            let (i, g) = logs.complete u o v k mem in
            let entry : ReplayWaitMemop = record { version = v; memop = k; tid = u } in
            let g' : get_elem? (s.wait_reader_log o).log i ≡ some entry =
              subst (λ l. get_elem? l i ≡ some entry) (sym (inv.logs o).same_log) g in
            elim (dec_lt i (s.wait_reader_log o).n) [
              | yes lt ↦ elim ((inv.logs o).behind i entry lt g') [
                | inl past ↦ omega arith
                | inr (w, x, pc, cw) ↦ absurd (not_waiting s inv t o v entry ct cl w x pc cw)
              ]
              | no ge ↦ absurd ((inv.threads t).cleared o v i entry ct cl (omega arith) g' refl)
            ]
        | inr (j, lt, w) ↦
            let (same, at) = r.write_once u t j (s.thread t).memop o v w ct in
            omega (arith, ap (λ x. (s.thread x).memop) same)
      ]
