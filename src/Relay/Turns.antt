-- ===== src/Relay/Turns.antt =====
-- relay.c: whichever way the threads interleave, no increment is lost.
use mem_order.Base.{
  ℕ, zero, suc, ◌+◌, ◌*◌, ◌/◌, ◌<◌, ◌≤◌, ◌==◌, ◌≡◌, ◌≢◌, ltb, List, [], ◌∷◌, update, arith, refl,
  Bool-cases, inl, inr, false, subst, dec_le, dec_lt,
}
use mem_order.Relay.{
  RelayPc, spin_wait, adding, loaded, finished, RelayState, floor, ceiling, at_pc, relay_body,
  run_relay, initial,
}

-- Where a thread stands tells how far `step` is.
unfoldable pub At : ℕ → ℕ → ℕ → ℕ → RelayPc → Type 0
At line num_procs step t spin_wait = Unit
At line num_procs step t adding = floor line num_procs t ≤ step
At line num_procs step t (loaded x) =
    (x ≡ step) × (floor line num_procs t ≤ step) × (step < ceiling line num_procs t)
At line num_procs step t finished = ceiling line num_procs t ≤ step

mul_mono : (q a b : ℕ) → a ≤ b → q * a ≤ q * b
mul_mono q a zero le = let z : a ≡ 0 = omega arith in rw z (omega arith)
mul_mono q a (suc b) le = elim (dec_le a b) [
  | yes less ↦ let ih = mul_mono q a b less in omega (arith, ih)
  | no more ↦ let e : a ≡ suc b = omega arith in rw e (omega arith)
]

-- Two threads between a load and a store are one.
one_adds : (q s t u : ℕ) → q * t ≤ s → s < q * (t + 1) → q * u ≤ s → s < q * (u + 1) → t ≡ u
one_adds q s t u a b c d = elim (dec_lt t u) [
  | yes less ↦ absurd (let h : q * (t + 1) ≤ q * u = mul_mono q _ _ (omega arith) in omega arith)
  | no more ↦ elim (dec_lt u t) [
    | yes less ↦ absurd (let h : q * (u + 1) ≤ q * t = mul_mono q _ _ (omega arith) in omega arith)
    | no same ↦ omega arith
  ]
]

pub record Inv (line num_procs : ℕ) (s : RelayState) : Type 0 where
  pub at : (t : ℕ) → At line num_procs s.step t (s.pc t)
  pub counted : s.step ≡ s.adds

module _ (line num_procs : ℕ) where
  At-later :
      (step t : ℕ) (pc : RelayPc)
      → ((x : ℕ) → pc ≡ loaded x → ⊥)
      → At line num_procs step t pc
      → At line num_procs (step + 1) t pc
  unfolding At
  At-later step t spin_wait other a = tt
  At-later step t adding other a = omega arith
  At-later step t (loaded x) other a = absurd (other x refl)
  At-later step t finished other a = omega arith

  update-At :
      (pcs : ℕ → RelayPc) (step t u : ℕ) (pc : RelayPc)
      → At line num_procs step t pc
      → ((t == u) ≡ false → At line num_procs step u (pcs u))
      → At line num_procs step u (update pcs t pc u)
  update-At pcs step t u pc own other = elim (Bool-cases (t == u)) [
    | inl e ↦
        let same : t ≡ u = ground arith in rw e (subst (λ v. At line num_procs step v pc) same own)
    | inr e ↦ rw e (other e)
  ]

  -- Only the thread itself moves.
  at_pc-At :
      (s : RelayState) (t : ℕ) (pc : RelayPc)
      → Inv line num_procs s
      → At line num_procs s.step t pc
      → Inv line num_procs (at_pc line num_procs s t pc)
  at_pc-At s t pc inv a = record {
    at = λ u. update-At s.pc s.step t u pc a (λ _. inv.at u);
    counted = inv.counted;
  }

  -- After the store of `step++`, no other thread stood between its load and its store.
  add-Inv :
      (s : RelayState) (t x : ℕ)
      → Inv line num_procs s
      → s.pc t ≡ loaded x
      → Inv line num_procs (relay_body line num_procs s t (loaded x))
  unfolding relay_body At
  add-Inv s t x inv e =
      let (now, low, high) = subst (λ p. At line num_procs s.step t p) e (inv.at t) in
      record {
        at = λ u. rw now (
            update-At s.pc (s.step + 1) t u adding (omega (arith, low)) (λ other.
              At-later s.step u (s.pc u)
                (λ y q.
                  let (_, a, b) = subst (λ p. At line num_procs s.step u p) q (inv.at u) in
                  let same = one_adds (line / num_procs) s.step t u low high a b in ground arith)
                (inv.at u)));
        counted = omega (arith, inv.counted);
      }

  pub relay_body-Inv :
      (s : RelayState) (t : ℕ) (pc : RelayPc)
      → s.pc t ≡ pc
      → Inv line num_procs s
      → Inv line num_procs (relay_body line num_procs s t pc)
  unfolding relay_body At
  relay_body-Inv s t spin_wait e inv = elim (Bool-cases (ltb s.step (floor line num_procs t))) [
    | inl q ↦ rw q inv
    | inr q ↦ rw q (at_pc-At s t adding inv (ground arith))
  ]
  relay_body-Inv s t adding e inv =
      let low = subst (λ p. At line num_procs s.step t p) e (inv.at t) in
      elim (Bool-cases (ltb s.step (ceiling line num_procs t))) [
        | inl q ↦ rw q (at_pc-At s t (loaded s.step) inv (refl, low, ground arith))
        | inr q ↦ rw q (at_pc-At s t finished inv (ground arith))
      ]
  relay_body-Inv s t (loaded x) e inv = add-Inv s t x inv e
  relay_body-Inv s t finished e inv = inv

  pub run_relay-Inv :
      (ts : List ℕ) (s : RelayState)
      → Inv line num_procs s
      → Inv line num_procs (run_relay line num_procs ts s)
  unfolding run_relay
  run_relay-Inv [] s inv = inv
  run_relay-Inv (t ∷ ts) s inv = run_relay-Inv ts _ (relay_body-Inv s t (s.pc t) refl inv)

  pub initial-Inv : Inv line num_procs initial
  unfolding At
  initial-Inv = record { at = λ t. tt; counted = refl }

  -- Whatever the schedule, `step` is the number of the stores of `step++`: none of them overwrote
  -- another one.
  pub step-adds :
      (ts : List ℕ)
      → (run_relay line num_procs ts initial).step ≡ (run_relay line num_procs ts initial).adds
  step-adds ts = (run_relay-Inv ts initial initial-Inv).counted

  -- Whatever the schedule: where a thread stands between the load and the store of `step++`, no
  -- other one does.
  pub one_relay_writer :
      (ts : List ℕ) (t u x y : ℕ)
      → (run_relay line num_procs ts initial).pc t ≡ loaded x
      → t ≢ u
      → (run_relay line num_procs ts initial).pc u ≢ loaded y
  unfolding At
  one_relay_writer ts t u x y p other q =
      let s = run_relay line num_procs ts initial in
      let inv = run_relay-Inv ts initial initial-Inv in
      let (_, a, b) = subst (λ c. At line num_procs s.step t c) p (inv.at t) in
      let (_, c, d) = subst (λ c. At line num_procs s.step u c) q (inv.at u) in
      other (one_adds (line / num_procs) s.step t u a b c d)
