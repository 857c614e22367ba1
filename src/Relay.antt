-- ===== src/Relay.antt =====
-- relay.c: threads that add to one counter in turns, without a lock.
pub mod Turns
pub mod Progress
use mem_order.Base.{ℕ, zero, suc, ◌+◌, ◌*◌, ◌/◌, ltb, if◌then◌else◌, List, [], ◌∷◌, update}

abbrev finishing_line : ℕ
finishing_line = 10000000

-- Where a thread stands in `ThreadBody`. `step++` is a load and a store.
pub data RelayPc : Type 0 where
  spin_wait : RelayPc  -- in the loop that waits for `floor`
  adding : RelayPc  -- at the test of the loop up to `ceiling`
  loaded : ℕ → RelayPc  -- in `step++`, between the load and the store
  finished : RelayPc

-- `adds` counts the stores of `step++`.
pub record RelayState : Type 0 where
  pub step : ℕ
  pub pc : ℕ → RelayPc
  pub adds : ℕ

module _ (line num_procs : ℕ) where
  abbrev pub floor : ℕ → ℕ
  floor i = line / num_procs * i

  abbrev pub ceiling : ℕ → ℕ
  ceiling i = line / num_procs * (i + 1)

  abbrev pub at_pc : RelayState → ℕ → RelayPc → RelayState
  at_pc s t pc = record s { pc = update s.pc t pc }

  -- One step of thread `t`.
  unfoldable pub relay_body : RelayState → ℕ → RelayPc → RelayState
  relay_body s t spin_wait = if ltb s.step (floor t) then s else at_pc s t adding
  relay_body s t adding =
      if ltb s.step (ceiling t) then at_pc s t (loaded s.step) else at_pc s t finished
  relay_body s t (loaded x) = record (at_pc s t adding) { step = x + 1; adds = s.adds + 1 }
  relay_body s t finished = s

  -- The threads interleaved: the list names the thread that makes each step.
  unfoldable pub run_relay : List ℕ → RelayState → RelayState
  unfolding relay_body
  run_relay [] s = s
  run_relay (t ∷ ts) s = run_relay ts (relay_body s t (s.pc t))

abbrev pub initial : RelayState
initial = record { step = 0; pc = λ _. spin_wait; adds = 0 }
