-- ===== src/Replay/Done.antt =====
-- mem-replay.c: what a replay has done: the versions are past the writes that are done, and a write
-- waits for reads of its own version.
use mem_order.Base.{
  ℕ, ◌+◌, ◌≤◌, ◌<◌, ◌==◌, ◌≡◌, ◌≢◌, ◌⊎◌, inl, inr, true, false, List, some, get_elem?, arith, refl,
  sym, ap, ◌∙◌, subst, update, Bool-cases, Option-cases, leb, ltb_ℤ, eq_ℤ, pos,
}
use mem_order.Mem.{ReplayWaitMemop}
use mem_order.Trace.{wr, access}
use mem_order.Trace.Order.{Recording}
use mem_order.Replay.Defs.{
  Pc, start, arrived, scan, searching, wait_for, ready, loaded, stored, bumped, aborted, Player,
  State, Call, read, write, op_of, objid, after_wait, next_wait_version_log, wait_object_version,
  assert_version, lock_reader_log, next_reader_memop, wait_reader, touch, bump_version, finish_call,
  turn,
}
use mem_order.Replay.Invariant.Defs.{Inv, Current, finished}

pub record Done (r : Recording) (merged : ℕ → List ReplayWaitMemop) (s : State) : Type 0 where
  pub wrote :
      (t m o v : ℕ)
      → m < finished (s.thread t).pc (s.thread t).memop
      → get_elem? (r.accesses t) m ≡ some (access wr o v)
      → v + 2 ≤ s.obj_version o
  pub waits :
      (t o v : ℕ) (e : ReplayWaitMemop)
      → (s.thread t).pc ≡ wait_for e
      → Current r t (s.thread t) wr o v
      → (e.version ≡ v) × (i : ℕ) × (get_elem? (merged o) i ≡ some e)

module _ {r : Recording} {merged : ℕ → List ReplayWaitMemop} (s : State) (t : ℕ)
    (h : Done r merged s) (s' : State) (p : Player)
    (grows : (o : ℕ) → s.obj_version o ≤ s'.obj_version o)
    (moves : (u : ℕ) → s'.thread u ≡ update s.thread t p u) where
  own_thread : s'.thread t ≡ p
  own_thread = let e : (t == t) ≡ true = ground arith in moves t ∙ rw e refl

  other_thread : (u : ℕ) → (t == u) ≡ false → s'.thread u ≡ s.thread u
  other_thread u e = moves u ∙ rw e refl

  moved-Done :
      ((m o v : ℕ)
        → m < finished p.pc p.memop
        → get_elem? (r.accesses t) m ≡ some (access wr o v)
        → (m < finished (s.thread t).pc (s.thread t).memop) ⊎ (v + 2 ≤ s'.obj_version o))
      → ((o v : ℕ) (e : ReplayWaitMemop)
          → p.pc ≡ wait_for e
          → Current r t p wr o v
          → (e.version ≡ v) × (i : ℕ) × (get_elem? (merged o) i ≡ some e))
      → Done r merged s'
  moved-Done own waits = record {
    wrote = λ u m o v lt g. elim (Bool-cases (t == u)) [
      | inl e ↦
          let same : t ≡ u = ground arith in
          let at = ap s'.thread (sym same) ∙ own_thread in
          let lt' : m < finished p.pc p.memop = subst (λ q. m < finished q.pc q.memop) at lt in
          let g' : get_elem? (r.accesses t) m ≡ some (access wr o v) =
            subst (λ w. get_elem? (r.accesses w) m ≡ some (access wr o v)) (sym same) g in
          elim (own m o v lt' g') [
            | inl before ↦ omega (arith, h.wrote t m o v before g', grows o)
            | inr now ↦ now
          ]
      | inr e ↦
          let lt' = subst (λ q. m < finished q.pc q.memop) (other_thread u e) lt in
          omega (arith, h.wrote u m o v lt' g, grows o)
    ];
    waits = λ u o v e q c. elim (Bool-cases (t == u)) [
      | inl w ↦
          let same : t ≡ u = ground arith in
          let at = ap s'.thread (sym same) ∙ own_thread in
          let c' : Current r u p wr o v = subst (λ k. Current r u k wr o v) at c in
          waits o v e (sym (ap (λ k. k.pc) at) ∙ q)
            (subst (λ k. Current r k p wr o v) (sym same) c')
      | inr w ↦
          let at = other_thread u w in
          h.waits u o v e (sym (ap (λ k. k.pc) at) ∙ q) (subst (λ k. Current r u k wr o v) at c)
    ];
  }

  -- The thread moves within a call, and not to the loop of `wait_reader`.
  pub quiet-Done :
      finished p.pc p.memop ≡ finished (s.thread t).pc (s.thread t).memop
      → ((e : ReplayWaitMemop) → p.pc ≢ wait_for e)
      → Done r merged s'
  quiet-Done f no_wait =
      moved-Done (λ m o v lt g. inl (omega (arith, f, lt))) (λ o v e q c. absurd (no_wait e q))

after_wait_plain : (call : Call) (m : ℕ) → finished (after_wait call) m ≡ m
after_wait_plain (read o) m = refl
after_wait_plain (write o x) m = refl

after_wait_moves : (call : Call) (e : ReplayWaitMemop) → after_wait call ≢ wait_for e
after_wait_moves (read o) e q = cc
after_wait_moves (write o x) e q = cc

module _ {r : Recording} {merged : ℕ → List ReplayWaitMemop} (s : State) (inv : Inv r merged s)
    (h : Done r merged s) (t : ℕ) (call : Call) (v : ℕ)
    (cur : Current r t (s.thread t) (op_of call) (objid call) v) where
  start-Done : (s.thread t).pc ≡ start → Done r merged (wait_object_version s t call)
  unfolding wait_object_version
  start-Done q = elim (Bool-cases (eq_ℤ (pos (s.thread t).memop) (s.thread t).wait_version.memop)) [
    | inl now ↦
        elim (Bool-cases
          (ltb_ℤ (pos (s.obj_version (objid call))) (s.thread t).wait_version.version)) [
            | inl below ↦ rw (now, below) h
            | inr reached ↦
                rw (now, reached)
                  (quiet-Done s t h _ _ (λ o. omega arith) (λ u. refl) (rw q refl) (λ e w. cc))
          ]
    | inr other ↦ rw other (
        quiet-Done s t h _ _ (λ o. omega arith) (λ u. refl)
          (rw (q, after_wait_plain call (s.thread t).memop) refl) (after_wait_moves call))
  ]

  scan-Done : (s.thread t).pc ≡ scan → Done r merged (lock_reader_log s t call)
  unfolding lock_reader_log
  scan-Done q = elim (Bool-cases (s.wait_reader_log (objid call)).mutex) [
    | inl held ↦
        rw held (quiet-Done s t h _ _ (λ o. omega arith) (λ u. refl) (rw q refl) (λ e w. cc))
    | inr free ↦
        rw free (quiet-Done s t h _ _ (λ o. omega arith) (λ u. refl) (rw q refl) (λ e w. cc))
  ]

  arrived-Done : (s.thread t).pc ≡ arrived → Done r merged (assert_version s t call)
  unfolding assert_version
  arrived-Done q =
      elim (Bool-cases
        (eq_ℤ (pos (s.obj_version (objid call))) (s.thread t).wait_version.version)) [
          | inl now ↦
              elim (Option-cases
                (next_wait_version_log (s.thread t).wait_version (s.thread t).wait_version_log)) [
                  | inl z ↦
                      rw (now, z)
                        (quiet-Done s t h _ _ (λ o. omega arith) (λ u. refl) (rw q refl)
                          (λ e w. cc))
                  | inr ((wv, rest), z) ↦
                      rw (now, z)
                        (quiet-Done s t h _ _ (λ o. omega arith) (λ u. refl)
                          (rw (q, after_wait_plain call (s.thread t).memop) refl)
                          (after_wait_moves call))
                ]
          | inr other ↦
              rw other (quiet-Done s t h _ _ (λ o. omega arith) (λ u. refl) (rw q refl) (λ e w. cc))
        ]

  wait_for-Done :
      (e : ReplayWaitMemop) → (s.thread t).pc ≡ wait_for e → Done r merged (wait_reader s t call e)
  unfolding wait_reader
  wait_for-Done e q = elim (Bool-cases (leb (s.thread e.tid).memop e.memop)) [
    | inl wait ↦ rw wait h
    | inr past ↦
        rw past (quiet-Done s t h _ _ (λ o. omega arith) (λ u. refl) (rw q refl) (λ f w. cc))
  ]

  touch-Done : (c : Call) → (s.thread t).pc ≡ ready → Done r merged (touch s t c)
  unfolding touch
  touch-Done (read o) q =
      quiet-Done s t h _ _ (λ o. omega arith) (λ u. refl) (rw q refl) (λ e w. cc)
  touch-Done (write o x) q =
      quiet-Done s t h _ _ (λ o. omega arith) (λ u. refl) (rw q refl) (λ e w. cc)

  -- The write's version is one that `obj_version` has reached.
  wr_at :
      (o w : ℕ) → Current r t (s.thread t) wr o w → (o ≡ objid call) × (w ≡ v) × (op_of call ≡ wr)
  wr_at o w c = (cc, cc, cc)

  searching-Done : (s.thread t).pc ≡ searching → Done r merged (next_reader_memop s t call)
  unfolding next_reader_memop
  searching-Done q =
      let l = s.wait_reader_log (objid call) in
      let here = (inv.threads t).at_version (op_of call) (objid call) v cur (rw q) in
      elim (Bool-cases (ltb_ℤ (pos l.n) l.size)) [
        | inr over ↦
            rw over (quiet-Done s t h _ _ (λ o. omega arith) (λ u. refl) (rw q refl) (λ f w. cc))
        | inl room ↦ elim (Option-cases (get_elem? l.log l.n)) [
          | inl z ↦
              rw (room, z)
                (quiet-Done s t h _ _ (λ o. omega arith) (λ u. refl) (rw q refl) (λ f w. cc))
          | inr (e, z) ↦ elim (Bool-cases (leb (s.obj_version (objid call)) e.version)) [
            | inr low ↦
                rw (room, z, low)
                  (quiet-Done s t h _ _ (λ o. omega arith) (λ u. refl) (rw q refl) (λ f w. cc))
            | inl le ↦ elim (Bool-cases (s.obj_version (objid call) == e.version)) [
              | inr later ↦
                  rw (room, z, le, later)
                    (quiet-Done s t h _ _ (λ o. omega arith) (λ u. refl) (rw q refl) (λ f w. cc))
              | inl same ↦
                  rw (room, z, le, same)
                    (moved-Done s t h _ _ (λ o. omega arith) (λ u. refl)
                      (λ m o w lt g. inl (rw q lt))
                      (λ o w f k c.
                        let found : f ≡ e = cc in
                        let (eo, ew, _) = wr_at o w c in
                        let at : get_elem? (merged (objid call)) l.n ≡ some e =
                          ap (λ k. get_elem? k l.n) (sym (inv.logs (objid call)).same_log) ∙ z in
                        rw (found, eo, ew) (ground (arith, here), l.n, at)))
            ]
          ]
        ]
      ]

  bump-Done : (s.thread t).pc ≡ stored → op_of call ≡ wr → Done r merged (bump_version s t call)
  unfolding bump_version
  bump-Done q is_wr =
      let here = (inv.threads t).at_version (op_of call) (objid call) v cur (rw q) in
      moved-Done s t h _ _ (λ o. ground arith) (λ u. refl)
        (λ m o w lt g. elim (Bool-cases (m == (s.thread t).memop)) [
          | inl e ↦
              let at : m ≡ (s.thread t).memop = ground arith in
              let c : Current r t (s.thread t) wr o w =
                subst (λ k. get_elem? (r.accesses t) k ≡ some (access wr o w)) at g in
              let (eo, ew, _) = wr_at o w c in inr (ground arith)
          | inr ne ↦ inl (rw q (ground arith))
        ])
        (λ o w e k c. cc)

  finish-Done :
      (reads : List ℕ)
      → ((x : ℕ) × ((s.thread t).pc ≡ loaded x)) ⊎ ((s.thread t).pc ≡ bumped)
      → Done r merged (finish_call s t call reads)
  unfolding finish_call
  finish-Done reads (inl (x, q)) =
      moved-Done s t h _ _ (λ o. omega arith) (λ u. refl)
        (λ m o w lt g. elim (Bool-cases (m == (s.thread t).memop)) [
          | inl e ↦
              let at : m ≡ (s.thread t).memop = ground arith in
              let c : Current r t (s.thread t) wr o w =
                subst (λ k. get_elem? (r.accesses t) k ≡ some (access wr o w)) at g in
              let is_rd = (inv.threads t).reading wr o w c (rw q) in absurd cc
          | inr ne ↦ inl (rw q (ground arith))
        ])
        (λ o w e k c. cc)
  finish-Done reads (inr q) =
      moved-Done s t h _ _ (λ o. omega arith) (λ u. refl) (λ m o w lt g. inl (rw q (ground arith)))
        (λ o w e k c. cc)

  pub turn-Done : (pc : Pc) → (s.thread t).pc ≡ pc → Done r merged (turn s t call pc)
  unfolding turn
  turn-Done start q = start-Done q
  turn-Done arrived q = arrived-Done q
  turn-Done scan q = scan-Done q
  turn-Done searching q = searching-Done q
  turn-Done (wait_for e) q = wait_for-Done e q
  turn-Done ready q = touch-Done call q
  turn-Done (loaded x) q = finish-Done _ (inl (x, q))
  turn-Done stored q = bump-Done q ((inv.threads t).writing (op_of call) (objid call) v cur (rw q))
  turn-Done bumped q = finish-Done _ (inr q)
  turn-Done aborted q = h
