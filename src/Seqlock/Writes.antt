-- ===== src/Seqlock/Writes.antt =====
-- The steps of `mem_write` in the seqlock.
use mem_order.Base.{
  ℕ, ◌+◌, ◌==◌, ◌≡◌, true, false, arith, refl, sym, ap, ◌∙◌, Bool-cases, inl, inr, update, subst,
}
use mem_order.Replay.Defs.{write, Program}
use mem_order.Atomic.{AtomicState, finish_write, issue, perform}
use mem_order.Seqlock.{
  RecordPc, outside, locking, locked, write_version, odd_version, stored, unlocking, RecordState,
  set_pc, return_call, seqlock_turn,
}
use mem_order.Seqlock.Refines.{holds, At, Refines}
use mem_order.Seqlock.Step.{Step-Refines, set_pc-Refines}
use mem_order.Seqlock.Turns.{Next, Next-none, Next-one, free-object}

module _ (prog : Program) (t : ℕ) (s : RecordState) (a : AtomicState) (h : Refines prog s a) where
  -- No other thread holds what thread `t` holds.
  alone :
      (p : RecordPc) (u o : ℕ)
      → s.pc t ≡ p
      → holds o p ≡ true
      → (t == u) ≡ false
      → holds o (s.pc u) ≡ true
      → ⊥
  alone p u o e q w r = let same = h.exclusive t u o (ap (holds o) e ∙ q) r in ground arith

  lock_taken : (p : RecordPc) (o : ℕ) → s.pc t ≡ p → holds o p ≡ true → s.write_lock o ≡ true
  lock_taken p o e q = h.taken t o (ap (holds o) e ∙ q)

  pub turn-locking : (o x : ℕ) → s.pc t ≡ locking o x → Next prog (seqlock_turn t (locking o x) s) a
  unfolding seqlock_turn At
  turn-locking o x e =
      let c = subst (At prog s a t) e (h.thread t) in
      elim (Bool-cases (s.write_lock o)) [
        | inl q ↦ Next-none prog _ a (rw q h)
        | inr q ↦
            let (ver, mem) = free-object prog t s a h o q in
            Next-none prog _ a (
              rw q (
                Step-Refines prog t (locked o x) s a
                  (set_pc t (locked o x) (record s { write_lock = update s.write_lock o true })) a h
                  (record {
                    pcs = λ u. refl;
                    even = h.even;
                    object = λ j. elim (h.object j) [
                      | inl r ↦ inl r
                      | inr (r, l) ↦ inr (r, ground arith)
                    ];
                    others = λ u w. record {
                      client = refl;
                      atomic = refl;
                      grows = λ j. omega arith;
                      stays = λ j r. refl;
                      held = λ j r. (refl, refl, refl);
                    };
                    own = (c, ver);
                    takes =
                        λ j w. let same : j ≡ o = ground arith in (ground arith, inr (rw same q));
                    frees = λ j w. inl (ground arith);
                  })))
      ]

  pub turn-locked : (o x : ℕ) → s.pc t ≡ locked o x → Next prog (seqlock_turn t (locked o x) s) a
  unfolding seqlock_turn At
  turn-locked o x e =
      let (c, ver) = subst (At prog s a t) e (h.thread t) in
      Next-none prog _ a (
        set_pc-Refines prog t (write_version o x (s.version o)) s a h (c, ver, ver)
          (λ j w. ap (holds j) e ∙ w))

  pub turn-write_version :
      (o x v : ℕ)
      → s.pc t ≡ write_version o x v
      → Next prog (seqlock_turn t (write_version o x v) s) a
  unfolding seqlock_turn At
  turn-write_version o x v e =
      let (c, ver, g) = subst (At prog s a t) e (h.thread t) in
      let own_lock : (o == o) ≡ true = ground arith in
      let taken = lock_taken (write_version o x v) o e own_lock in
      Next-none prog _ a (
        Step-Refines prog t (odd_version o x v) s a
          (set_pc t (odd_version o x v)
            (record s { version = update s.version o (s.version o + 1) }))
          a h
          (record {
            pcs = λ u. refl;
            even = h.even;
            object = λ j. elim (Bool-cases (o == j)) [
              | inl w ↦
                  let same : o ≡ j = ground arith in
                  inr (ground arith, ap s.write_lock (sym same) ∙ taken)
              | inr w ↦ rw w (h.object j)
            ];
            others = λ u w. record {
              client = refl;
              atomic = refl;
              grows = λ j. ground arith;
              stays = λ j r. refl;
              held = λ j r. elim (Bool-cases (o == j)) [
                | inl z ↦
                    let same : o ≡ j = ground arith in
                    absurd (alone (write_version o x v) u j e (ground arith) w r)
                | inr z ↦ (rw z refl, refl, refl)
              ];
            };
            own = (c, ground arith, g);
            takes = λ j w. let z = ap (holds j) e ∙ w in (h.taken t j z, inl z);
            frees = λ j w. inl w;
          }))

  pub turn-odd_version :
      (o x v : ℕ) → s.pc t ≡ odd_version o x v → Next prog (seqlock_turn t (odd_version o x v) s) a
  unfolding seqlock_turn At
  turn-odd_version o x v e =
      let (c, ver, g) = subst (At prog s a t) e (h.thread t) in
      let own_lock : (o == o) ≡ true = ground arith in
      let taken = lock_taken (odd_version o x v) o e own_lock in
      Next-none prog _ a (
        Step-Refines prog t (stored o x v) s a
          (set_pc t (stored o x v) (record s { memory = update s.memory o x })) a h
          (record {
            pcs = λ u. refl;
            even = h.even;
            object = λ j. elim (Bool-cases (o == j)) [
              | inl w ↦
                  let same : o ≡ j = ground arith in
                  inr (
                    subst (λ i. s.version i ≡ a.version i + 1) same ver,
                    ap s.write_lock (sym same) ∙ taken,
                  )
              | inr w ↦ rw w (h.object j)
            ];
            others = λ u w. record {
              client = refl;
              atomic = refl;
              grows = λ j. omega arith;
              stays = λ j r. refl;
              held = λ j r. elim (Bool-cases (o == j)) [
                | inl z ↦
                    let same : o ≡ j = ground arith in
                    absurd (alone (odd_version o x v) u j e (ground arith) w r)
                | inr z ↦ (refl, rw z refl, refl)
              ];
            };
            own = (c, ver, g, ground arith);
            takes = λ j w. let z = ap (holds j) e ∙ w in (h.taken t j z, inl z);
            frees = λ j w. inl w;
          }))

  pub turn-stored :
      (o x v : ℕ) → s.pc t ≡ stored o x v → Next prog (seqlock_turn t (stored o x v) s) a
  unfolding seqlock_turn At perform
  turn-stored o x v e =
      let ((same, i), ver, g, mem) = subst (At prog s a t) e (h.thread t) in
      let own_t : (t == t) ≡ true = ground arith in
      let done : finish_write o (a.version o) (a.client t) ≡ finish_write o v (s.client t) =
        rw (← g, same) refl in
      Next-one prog t (write o x) _ a (ap (issue prog t) same ∙ i) (
        Step-Refines prog t (unlocking o x v) s a
          (set_pc t (unlocking o x v) (record s { version = update s.version o (s.version o + 1) }))
          (perform t (write o x) a) h
          (record {
            pcs = λ u. refl;
            even = λ j. ground (arith, h.even j, h.even o);
            object = λ j. elim (Bool-cases (o == j)) [
              | inl w ↦
                  let q : o ≡ j = ground arith in inl (ground arith, rw (← q) (ground (arith, mem)))
              | inr w ↦ rw w (h.object j)
            ];
            others = λ u w. record {
              client = refl;
              atomic = rw w refl;
              grows = λ j. ground arith;
              stays = λ j r. ground arith;
              held = λ j r. elim (Bool-cases (o == j)) [
                | inl z ↦
                    let q : o ≡ j = ground arith in
                    absurd (alone (stored o x v) u j e (ground arith) w r)
                | inr z ↦ (rw z refl, refl, rw z refl)
              ];
            };
            own = (rw own_t done, ground arith, i);
            takes = λ j w. let z = ap (holds j) e ∙ w in (h.taken t j z, inl z);
            frees = λ j w. inl w;
          }))

  pub turn-unlocking :
      (o x v : ℕ) → s.pc t ≡ unlocking o x v → Next prog (seqlock_turn t (unlocking o x v) s) a
  unfolding seqlock_turn At
  turn-unlocking o x v e =
      let (c, ver, _) = subst (At prog s a t) e (h.thread t) in
      let own_t : (t == t) ≡ true = ground arith in
      Next-none prog _ a (
        Step-Refines prog t outside s a
          (return_call t (finish_write o v (s.client t))
            (record s { write_lock = update s.write_lock o false }))
          a h
          (record {
            pcs = λ u. refl;
            even = h.even;
            object = λ j. elim (h.object j) [
              | inl q ↦ inl q
              | inr (q, l) ↦ elim (Bool-cases (o == j)) [
                | inl z ↦
                    let same : o ≡ j = ground arith in
                    absurd (
                      let r = subst (λ k. s.version k ≡ a.version k) same ver in
                      omega (arith, q, r))
                | inr z ↦ inr (q, rw z l)
              ]
            ];
            others = λ u w. record {
              client = rw w refl;
              atomic = refl;
              grows = λ j. omega arith;
              stays = λ j r. refl;
              held = λ j r. (refl, refl, refl);
            };
            own = rw own_t c;
            takes = λ j w. absurd cc;
            frees = λ j w. elim (Bool-cases (o == j)) [
              | inl z ↦ inr (ap (holds j) e ∙ ground arith)
              | inr z ↦ inl (rw z w)
            ];
          }))
