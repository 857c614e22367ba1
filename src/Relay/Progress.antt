-- ===== src/Relay/Progress.antt =====
-- relay.c: the counter can always be raised until it reaches the last thread's ceiling.
use mem_order.Base.{
  ℕ, zero, suc, ◌+◌, ◌*◌, ◌/◌, ◌<◌, ◌≤◌, ◌≡◌, ltb, List, [], ◌∷◌, update_self, arith, refl, true,
  false, subst, sym, dec_lt,
}
use mem_order.Relay.{
  RelayPc, spin_wait, adding, loaded, finished, RelayState, floor, ceiling, at_pc, relay_body,
  run_relay, initial,
}
use mem_order.Relay.Turns.{At, Inv, relay_body-Inv, run_relay-Inv, initial-Inv}

-- The part of a number below `q * n`.
part : (q n s : ℕ) → s < q * n → (t : ℕ) × (t < n) × (q * t ≤ s) × (s < q * (t + 1))
part q zero s lt = absurd (omega arith)
part q (suc n) s lt = elim (dec_lt s (q * n)) [
  | yes less ↦ let (t, a, b, c) = part q n s less in (t, omega (arith, a), b, c)
  | no more ↦ (n, omega arith, omega (arith, more), omega (arith, lt))
]

module _ (line num_procs : ℕ) where
  relay_body-le :
      (s : RelayState) (t : ℕ) (pc : RelayPc)
      → s.pc t ≡ pc
      → Inv line num_procs s
      → s.step ≤ (relay_body line num_procs s t pc).step
  unfolding relay_body At
  relay_body-le s t spin_wait e inv = ground arith
  relay_body-le s t adding e inv = ground arith
  relay_body-le s t (loaded x) e inv =
      let (now, _, _) = subst (λ p. At line num_procs s.step t p) e (inv.at t) in omega (arith, now)
  relay_body-le s t finished e inv = omega arith

  run_relay-le :
      (ts : List ℕ) (s : RelayState)
      → Inv line num_procs s
      → s.step ≤ (run_relay line num_procs ts s).step
  unfolding run_relay
  run_relay-le [] s inv = omega arith
  run_relay-le (t ∷ ts) s inv =
      let first = relay_body-le s t (s.pc t) refl inv in
      let rest = run_relay-le ts _ (relay_body-Inv line num_procs s t (s.pc t) refl inv) in
      omega (arith, first, rest)

  raise-loaded :
      (ts : List ℕ) (s : RelayState) (t x : ℕ)
      → Inv line num_procs s
      → s.pc t ≡ loaded x
      → s.step < (run_relay line num_procs (t ∷ ts) s).step
  unfolding run_relay relay_body At
  raise-loaded ts s t x inv e =
      let (now, _, _) = subst (λ p. At line num_procs s.step t p) e (inv.at t) in
      let rest = run_relay-le ts _ (relay_body-Inv line num_procs s t (loaded x) e inv) in
      subst (λ p. s.step < (run_relay line num_procs ts (relay_body line num_procs s t p)).step)
        (sym e) (omega (arith, now, rest))

  raise-adding :
      (ts : List ℕ) (s : RelayState) (t : ℕ)
      → Inv line num_procs s
      → s.pc t ≡ adding
      → s.step < ceiling line num_procs t
      → s.step < (run_relay line num_procs (t ∷ t ∷ ts) s).step
  unfolding run_relay relay_body
  raise-adding ts s t inv e lt =
      let below : ltb s.step (ceiling line num_procs t) ≡ true = ground arith in
      let inv' = relay_body-Inv line num_procs s t adding e inv in
      let moved : relay_body line num_procs s t adding ≡ at_pc line num_procs s t (loaded s.step) =
        rw below refl in
      subst
        (λ p. s.step < (run_relay line num_procs (t ∷ ts) (relay_body line num_procs s t p)).step)
        (sym e)
        (subst (λ z. s.step < (run_relay line num_procs (t ∷ ts) z).step) (sym moved)
          (raise-loaded ts (at_pc line num_procs s t (loaded s.step)) t s.step
            (subst (λ z. Inv line num_procs z) moved inv') (update_self s.pc t (loaded s.step))))

  raise-spin_wait :
      (ts : List ℕ) (s : RelayState) (t : ℕ)
      → Inv line num_procs s
      → s.pc t ≡ spin_wait
      → floor line num_procs t ≤ s.step
      → s.step < ceiling line num_procs t
      → s.step < (run_relay line num_procs (t ∷ t ∷ t ∷ ts) s).step
  unfolding run_relay relay_body
  raise-spin_wait ts s t inv e le lt =
      let reached : ltb s.step (floor line num_procs t) ≡ false = ground arith in
      let inv' = relay_body-Inv line num_procs s t spin_wait e inv in
      let moved : relay_body line num_procs s t spin_wait ≡ at_pc line num_procs s t adding =
        rw reached refl in
      subst
        (λ p.
          s.step < (run_relay line num_procs (t ∷ t ∷ ts) (relay_body line num_procs s t p)).step)
        (sym e)
        (subst (λ z. s.step < (run_relay line num_procs (t ∷ t ∷ ts) z).step) (sym moved)
          (raise-adding ts (at_pc line num_procs s t adding) t
            (subst (λ z. Inv line num_procs z) moved inv') (update_self s.pc t adding) lt))

  raise :
      (s : RelayState) (t : ℕ) (pc : RelayPc)
      → Inv line num_procs s
      → s.pc t ≡ pc
      → floor line num_procs t ≤ s.step
      → s.step < ceiling line num_procs t
      → s.step < (run_relay line num_procs (t ∷ t ∷ t ∷ []) s).step
  unfolding At
  raise s t spin_wait inv e le lt = raise-spin_wait [] s t inv e le lt
  raise s t adding inv e le lt = raise-adding (t ∷ []) s t inv e lt
  raise s t (loaded x) inv e le lt = raise-loaded (t ∷ t ∷ []) s t x inv e
  raise s t finished inv e le lt =
      absurd (let above = subst (λ p. At line num_procs s.step t p) e (inv.at t) in omega arith)

  -- Whatever the schedule has been: while `step` is below the last thread's ceiling, there is one of
  -- the threads whose next three steps raise it, so the threads never all wait for each other.
  pub run_relay-progress :
      (ts : List ℕ)
      → (run_relay line num_procs ts initial).step < line / num_procs * num_procs
      → (t : ℕ) × (t < num_procs)
        × ((run_relay line num_procs ts initial).step
            < (run_relay line num_procs
                (t ∷ t ∷ t ∷ [])
                (run_relay line num_procs ts initial)).step)
  run_relay-progress ts lt =
      let s = run_relay line num_procs ts initial in
      let inv = run_relay-Inv line num_procs ts initial (initial-Inv line num_procs) in
      let (t, a, b, c) = part (line / num_procs) num_procs s.step lt in
      (t, a, raise s t (s.pc t) inv refl b c)
