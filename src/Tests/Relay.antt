-- ===== src/Tests/Relay.antt =====
-- relay.c: two threads that count to 5 each.
use mem_order.Base.{ℕ, ◌<◌, ◌≡◌, ◌≢◌, List, [], ◌∷◌, refl, arith}
use mem_order.Relay.{run_relay, initial, loaded}
use mem_order.Relay.Turns.{step-adds, one_relay_writer}
use mem_order.Relay.Progress.{run_relay-progress}

-- Thread 0 adds twice and stands between a load and a store; thread 1 waits.
abbrev schedule : List ℕ
schedule = 0 ∷ 1 ∷ 0 ∷ 0 ∷ 0 ∷ 1 ∷ 0 ∷ 0 ∷ []

step-adds_example : (run_relay 10 2 schedule initial).step ≡ (run_relay 10 2 schedule initial).adds
step-adds_example = step-adds 10 2 schedule

two_adds : (run_relay 10 2 schedule initial).step ≡ 2
unfolding run_relay
two_adds = refl

one_relay_writer_example : (run_relay 10 2 schedule initial).pc 1 ≢ loaded 2
unfolding run_relay
one_relay_writer_example =
    one_relay_writer 10 2 schedule 0 1 2 2 refl (λ e. absurd (omega (arith, e)))

run_relay-progress_example :
    (t : ℕ) × (t < 2)
    × ((run_relay 10 2 schedule initial).step
        < (run_relay 10 2 (t ∷ t ∷ t ∷ []) (run_relay 10 2 schedule initial)).step)
unfolding run_relay
run_relay-progress_example = run_relay-progress 10 2 schedule (omega arith)
