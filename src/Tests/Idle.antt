-- ===== src/Tests/Idle.antt =====
-- mem-replay.c: in the example's replay, the threads that have no access stay at their start.

use mem_order.Base.{
  ltb, inl, inr, ℕ, suc, ◌≡◌, ◌≢◌, List, [], ◌∷◌, arith, refl, Bool, true, false, if◌then◌else◌, ap,
  ◌∙◌, Option-cases,
}
use mem_order.Trace.Order.{recording}
use mem_order.Record.{record_thread}
use mem_order.Replay.Defs.{
  Pc, start, aborted, wait_for, State, Call, read, write, step, run, mem_init, mem_init_thr, turn,
  wait_object_version, assert_version, lock_reader_log, next_reader_memop, wait_reader, touch,
  bump_version, finish_call, arrived, scan, searching, ready, loaded, stored, bumped,
}
use mem_order.Replay.Start.{replay_start}
use mem_order.Tests.Example.{events, prog, merged, accesses_none}

-- A step changes no other thread.
turn-other :
    (s : State) (t u : ℕ) (call : Call) (pc : Pc) → t ≢ u → (turn s t call pc).thread u ≡ s.thread u
unfolding turn wait_object_version assert_version lock_reader_log next_reader_memop wait_reader
    touch bump_version finish_call
turn-other s t u call start ne = ground arith
turn-other s t u call arrived ne = ground arith
turn-other s t u call scan ne = ground arith
turn-other s t u call searching ne = ground arith
turn-other s t u call (wait_for e) ne = ground arith
turn-other s t u (read o) ready ne = ground arith
turn-other s t u (write o x) ready ne = ground arith
turn-other s t u call (loaded x) ne = ground arith
turn-other s t u call stored ne = ground arith
turn-other s t u call bumped ne = ground arith
turn-other s t u call aborted ne = refl

step-other : (s : State) (t u : ℕ) → t ≢ u → (step prog t s).thread u ≡ s.thread u
unfolding step
step-other s t u ne = elim (Option-cases (prog t (s.thread t).memop (s.thread t).reads)) [
  | inl e ↦ rw (e, step)
  | inr (call, e) ↦ rw (e, step) (turn-other s t u call (s.thread t).pc ne)
]

abbrev below_two : List ℕ → Bool
below_two [] = true
below_two (t ∷ ts) = let rest = below_two ts in if ltb t 2 then rest else false

run-other :
    (ts : List ℕ) (s : State) (u : ℕ)
    → below_two ts ≡ true
    → (run prog ts s).thread (suc (suc u)) ≡ s.thread (suc (suc u))
unfolding run
run-other [] s u two = refl
run-other (t ∷ ts) s u two =
    run-other ts (step prog t s) u (ground arith) ∙ step-other s t (suc (suc u)) (λ e. ground arith)

abbrev pub begin : State
begin = replay_start (recording events) 1 merged (λ _. 5)

-- Thread 0 writes, and then thread 1 stands after the wait for its second read.
abbrev pub written_prefix : List ℕ
written_prefix = 1 ∷ 1 ∷ 1 ∷ 0 ∷ 0 ∷ 0 ∷ 0 ∷ 0 ∷ 0 ∷ 0 ∷ 0 ∷ 0 ∷ 0 ∷ 0 ∷ 0 ∷ 1 ∷ 1 ∷ []

abbrev pub writing_prefix : List ℕ
writing_prefix = 1 ∷ 1 ∷ 1 ∷ 0 ∷ 0 ∷ 0 ∷ 0 ∷ []

empty_start : (mem_init_thr (record_thread 1 []).versions).pc ≡ start
unfolding mem_init_thr record_thread
empty_start = refl

begin_idle : (t : ℕ) → (begin.thread (suc (suc t))).pc ≡ start
unfolding mem_init
begin_idle t =
    ap (λ xs. (mem_init_thr (record_thread 1 xs).versions).pc) (accesses_none t) ∙ empty_start

pub idle :
    (ts : List ℕ) (t : ℕ)
    → below_two ts ≡ true
    → ((run prog ts begin).thread (suc (suc t))).pc ≡ start
idle ts t two = ap (λ p. p.pc) (run-other ts begin t two) ∙ begin_idle t
