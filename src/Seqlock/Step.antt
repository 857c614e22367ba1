-- ===== src/Seqlock/Step.antt =====
-- What a step of one thread has to keep.
use mem_order.Base.{
  ℕ, ◌+◌, ◌%◌, ◌==◌, ◌≡◌, true, false, arith, refl, sym, ap, ◌∙◌, Bool-cases, inl, inr, ◌⊎◌, update,
  subst,
}
use mem_order.Replay.Defs.{Program}
use mem_order.Atomic.{AtomicState}
use mem_order.Seqlock.{RecordPc, RecordState, set_pc}
use mem_order.Seqlock.Refines.{holds, At, Refines, Leaves, At-Leaves}

-- Thread `t` moves to `p`. It comes to hold a lock only where no thread does, and frees only its own.
pub record Step (prog : Program) (t : ℕ) (p : RecordPc) (s : RecordState) (a : AtomicState)
    (s' : RecordState) (a' : AtomicState) : Type 0 where
  pub pcs : (u : ℕ) → s'.pc u ≡ update s.pc t p u
  pub even : (o : ℕ) → a'.version o % 2 ≡ 0
  pub object :
      (o : ℕ)
      → ((s'.version o ≡ a'.version o) × (s'.memory o ≡ a'.memory o))
        ⊎ ((s'.version o ≡ a'.version o + 1) × (s'.write_lock o ≡ true))
  pub others : (u : ℕ) → (t == u) ≡ false → Leaves u s a s' a'
  pub own : At prog s' a' t p
  pub takes :
      (o : ℕ)
      → holds o p ≡ true
      → (s'.write_lock o ≡ true) × ((holds o (s.pc t) ≡ true) ⊎ (s.write_lock o ≡ false))
  pub frees : (o : ℕ) → s.write_lock o ≡ true → (s'.write_lock o ≡ true) ⊎ (holds o (s.pc t) ≡ true)

module _ (prog : Program) (t : ℕ) (p : RecordPc) (s : RecordState) (a : AtomicState)
    (s' : RecordState) (a' : AtomicState) (h : Refines prog s a) (k : Step prog t p s a s' a') where
  pc-own : s'.pc t ≡ p
  pc-own = let e : (t == t) ≡ true = ground arith in k.pcs t ∙ rw e refl

  pc-other : (u : ℕ) → (t == u) ≡ false → s'.pc u ≡ s.pc u
  pc-other u e = k.pcs u ∙ rw e refl

  -- Who holds a lock after the step held it before, or is `t`, which takes it.
  holder :
      (u o : ℕ)
      → holds o (s'.pc u) ≡ true
      → (holds o (s.pc u) ≡ true) ⊎ ((t ≡ u) × (s.write_lock o ≡ false))
  holder u o q = elim (Bool-cases (t == u)) [
    | inl e ↦
        let same : t ≡ u = ground arith in
        let at_t : holds o p ≡ true = ap (holds o) (sym (ap s'.pc (sym same) ∙ pc-own)) ∙ q in
        elim ((k.takes o at_t).1) [
          | inl held ↦ inl (ap (λ w. holds o (s.pc w)) (sym same) ∙ held)
          | inr free ↦ inr (same, free)
        ]
    | inr e ↦ inl (ap (holds o) (sym (pc-other u e)) ∙ q)
  ]

  pub Step-Refines : Refines prog s' a'
  Step-Refines = record {
    even = k.even;
    object = k.object;
    thread = λ u. elim (Bool-cases (t == u)) [
      | inl e ↦
          let same : t ≡ u = ground arith in
          subst (λ w. At prog s' a' w (s'.pc w)) same
            (subst (λ x. At prog s' a' t x) (sym pc-own) k.own)
      | inr e ↦
          subst (λ x. At prog s' a' u x) (sym (pc-other u e))
            (At-Leaves prog u s a s' a' (k.others u e) (s.pc u) refl (h.thread u))
    ];
    exclusive = λ u w o q r. elim (holder u o q) [
      | inl hu ↦ elim (holder w o r) [
        | inl hw ↦ h.exclusive u w o hu hw
        | inr (_, free) ↦ absurd (let held = h.taken u o hu in cc)
      ]
      | inr (eu, free) ↦ elim (holder w o r) [
        | inl hw ↦ absurd (let held = h.taken w o hw in cc)
        | inr (ew, _) ↦ sym eu ∙ ew
      ]
    ];
    taken = λ u o q. elim (Bool-cases (t == u)) [
      | inl e ↦
          let same : t ≡ u = ground arith in
          (k.takes o (ap (holds o) (sym (ap s'.pc (sym same) ∙ pc-own)) ∙ q)).0
      | inr e ↦
          let hu : holds o (s.pc u) ≡ true = ap (holds o) (sym (pc-other u e)) ∙ q in
          elim (k.frees o (h.taken u o hu)) [
            | inl kept ↦ kept
            | inr ht ↦ absurd (let same = h.exclusive t u o ht hu in ground arith)
          ]
    ];
  }

-- A thread that only moves.
pub set_pc-Refines :
    (prog : Program) (t : ℕ) (p : RecordPc) (s : RecordState) (a : AtomicState)
    → Refines prog s a
    → At prog (set_pc t p s) a t p
    → ((o : ℕ) → holds o p ≡ true → holds o (s.pc t) ≡ true)
    → Refines prog (set_pc t p s) a
set_pc-Refines prog t p s a h own sub = Step-Refines prog t p s a (set_pc t p s) a h (record {
  pcs = λ u. refl;
  even = h.even;
  object = h.object;
  others = λ u e. record {
    client = refl;
    atomic = refl;
    grows = λ o. omega arith;
    stays = λ o q. refl;
    held = λ o q. (refl, refl, refl);
  };
  own = own;
  takes = λ o q. (h.taken t o (sub o q), inl (sub o q));
  frees = λ o q. inl q;
})
