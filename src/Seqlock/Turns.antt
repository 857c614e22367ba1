-- ===== src/Seqlock/Turns.antt =====
-- Every step inside a call of the seqlock is no atomic call or one.
use mem_order.Base.{
  ℕ, ◌%◌, ◌==◌, ◌≡◌, true, false, List, [], ◌∷◌, arith, refl, ap, ◌∙◌, Bool-cases, inl, inr, some,
  subst,
}
use mem_order.Replay.Defs.{Call, read, Program}
use mem_order.Atomic.{AtomicState, finish_read, issue, perform, atomic_step, atomic_run}
use mem_order.Seqlock.{
  outside, reading, version_read, value_read, RecordState, return_call, seqlock_turn,
}
use mem_order.Seqlock.Refines.{At, Refines}
use mem_order.Seqlock.Step.{Step-Refines, set_pc-Refines}

-- Some atomic calls lead to a state that stands to `s` as it should.
abbrev pub Next : Program → RecordState → AtomicState → Type 0
Next prog s a = (ts : List ℕ) × Refines prog s (atomic_run prog ts a)

pub Next-none :
    (prog : Program) (s : RecordState) (a : AtomicState) → Refines prog s a → Next prog s a
unfolding atomic_run
Next-none prog s a h = ([], h)

pub Next-one :
    (prog : Program) (t : ℕ) (call : Call) (s : RecordState) (a : AtomicState)
    → issue prog t (a.client t) ≡ some call
    → Refines prog s (perform t call a)
    → Next prog s a
unfolding atomic_run
Next-one prog t call s a e h = (t ∷ [], rw (e, atomic_step) h)

module _ (prog : Program) (t : ℕ) (s : RecordState) (a : AtomicState) (h : Refines prog s a) where
  -- An even version is that of the atomic calls.
  pub even-object :
      (o : ℕ) → s.version o % 2 ≡ 0 → (s.version o ≡ a.version o) × (s.memory o ≡ a.memory o)
  even-object o e = elim (h.object o) [
    | inl q ↦ q
    | inr (q, _) ↦ absurd (let even = h.even o in omega (arith, q, even, e))
  ]

  pub free-object :
      (o : ℕ) → s.write_lock o ≡ false → (s.version o ≡ a.version o) × (s.memory o ≡ a.memory o)
  free-object o e = elim (h.object o) [ inl q ↦ q | inr (_, q) ↦ absurd cc ]

  pub turn-reading : (o : ℕ) → s.pc t ≡ reading o → Next prog (seqlock_turn t (reading o) s) a
  unfolding seqlock_turn At
  turn-reading o e =
      let c = subst (At prog s a t) e (h.thread t) in
      elim (Bool-cases (s.version o % 2 == 1)) [
        | inl q ↦ Next-none prog _ a (rw q h)
        | inr q ↦ Next-none prog _ a (
            rw q (
              set_pc-Refines prog t (version_read o (s.version o)) s a h
                (c, ground arith, omega arith) (λ i w. absurd cc)))
      ]

  pub turn-version_read :
      (o v : ℕ) → s.pc t ≡ version_read o v → Next prog (seqlock_turn t (version_read o v) s) a
  unfolding seqlock_turn At
  turn-version_read o v e =
      let (c, even, le) = subst (At prog s a t) e (h.thread t) in
      Next-none prog _ a (
        set_pc-Refines prog t (value_read o v (s.memory o)) s a h
          (c, even, le, λ q. (even-object o (ap (λ n. n % 2) q ∙ even)).1) (λ i w. absurd cc))

  pub turn-value_read :
      (o v x : ℕ) → s.pc t ≡ value_read o v x → Next prog (seqlock_turn t (value_read o v x) s) a
  unfolding seqlock_turn At perform
  turn-value_read o v x e =
      let ((same, i), even, le, val) = subst (At prog s a t) e (h.thread t) in
      elim (Bool-cases (s.version o == v)) [
        | inl q ↦
            let now : s.version o ≡ v = ground arith in
            let (ver, mem) = even-object o (ap (λ n. n % 2) now ∙ even) in
            let done : finish_read o (a.version o) (a.memory o) (a.client t)
                ≡ finish_read o v x (s.client t) =
              rw (← ver, now, same, val now) refl in
            let own : (t == t) ≡ true = ground arith in
            Next-one prog t (read o) _ a (ap (issue prog t) same ∙ i) (
              rw q (
                Step-Refines prog t outside s a (return_call t (finish_read o v x (s.client t)) s)
                  (perform t (read o) a) h
                  (record {
                    pcs = λ u. refl;
                    even = h.even;
                    object = h.object;
                    others = λ u w. record {
                      client = rw w refl;
                      atomic = rw w refl;
                      grows = λ j. omega arith;
                      stays = λ j r. refl;
                      held = λ j r. (refl, refl, refl);
                    };
                    own = rw own done;
                    takes = λ j w. absurd cc;
                    frees = λ j w. inl w;
                  })))
        | inr q ↦
            Next-none prog _ a
              (rw q (set_pc-Refines prog t (reading o) s a h (same, i) (λ j w. absurd cc)))
      ]
