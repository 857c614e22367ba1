-- ===== src/Replay/Start.antt =====
-- mem-replay.c: `mem_init` and `mem_init_thr` start the replay where the recorded run starts.
use mem_order.Base.{
  ℕ, ◌≡◌, inl, inr, true, List, [], ◌∷◌, take, arith, refl, ap, ◌∙◌, sym, pos, Option-cases, ◌≢◌,
}
use mem_order.Mem.{ReplayWaitMemop, WaitVersion}
use mem_order.Trace.Order.{Recording}
use mem_order.Record.{record_thread}
use mem_order.Replay.Defs.{
  ReplayWaitMemopLog, Player, State, Program, mem_init_thr, load_wait_reader_log, mem_init,
  wait_for, next_wait_version_log,
}
use mem_order.Replay.Waits.{
  versions-entries_from, version-recorded_zero, next_wait_version_log-entries_from,
}
use mem_order.Replay.Invariant.Defs.{ThreadInv, LogInv, finished}
use mem_order.Replay.Values.{reads_of, ProgramRun}
use mem_order.Replay.Values.Steps.{is_plain}
use mem_order.Replay.Step.{Good}
use mem_order.Replay.Done.{Done}

-- The replay's state at the start, from the logs of the recorder.
abbrev pub replay_start : Recording → ℕ → (ℕ → List ReplayWaitMemop) → (ℕ → ℕ) → State
replay_start r nobj merged memory =
    mem_init merged (λ t. (record_thread nobj (r.accesses t)).versions) memory

load_wait_reader_log-LogInv :
    (r : Recording) (merged : ℕ → List ReplayWaitMemop) (thread : ℕ → Player) (o : ℕ)
    (l : List ReplayWaitMemop)
    → l ≡ merged o
    → LogInv r merged 0 (load_wait_reader_log l) thread o
unfolding load_wait_reader_log
load_wait_reader_log-LogInv r merged thread o [] h = record {
  same_log = h;
  sized = inr (refl, refl);
  ahead = λ i e le g. omega arith;
  behind = λ i e lt g. absurd (omega arith);
  locked = λ m. cc;
}
load_wait_reader_log-LogInv r merged thread o (e ∷ es) h = record {
  same_log = h;
  sized = inl refl;
  ahead = λ i e le g. omega arith;
  behind = λ i e lt g. absurd (omega arith);
  locked = λ m. cc;
}

mem_init_thr-ThreadInv :
    (r : Recording) (nobj : ℕ) (logs : ℕ → ReplayWaitMemopLog) (t : ℕ)
    → ThreadInv r (λ _. 0) logs t (mem_init_thr (record_thread nobj (r.accesses t)).versions)
unfolding mem_init_thr
mem_init_thr-ThreadInv r nobj logs t =
    let zeroed : WaitVersion = record { memop = pos 0; version = pos 0 } in
    let (wv, rest, found, sh) =
      next_wait_version_log-entries_from (r.accesses t) 0 zeroed
        (record_thread nobj (r.accesses t)).versions (omega arith)
        (versions-entries_from nobj (r.accesses t)) in
    rw (found, mem_init_thr)
      (record {
        sane = refl;
        upper = λ m op o v le g. omega arith;
        last = λ o. omega (arith, version-recorded_zero (r.accesses t) o);
        at_version = λ op o v c h. cc;
        past_version = λ op o v c h. cc;
        writing = λ op o v c h. cc;
        reading = λ op o v c h. cc;
        cleared = λ o v i e c h. cc;
        shows = sh;
        arrived_at = λ h. cc;
      })

-- A thread begins with no access made and no value read, and not inside of a call.
mem_init_thr_lem :
    (log : List WaitVersion)
    → ((mem_init_thr log).memop ≡ 0)
      × ((mem_init_thr log).reads ≡ [])
      × (is_plain (mem_init_thr log).pc ≡ true)
      × (finished (mem_init_thr log).pc (mem_init_thr log).memop ≡ 0)
      × ((e : ReplayWaitMemop) → (mem_init_thr log).pc ≢ wait_for e)
unfolding mem_init_thr
mem_init_thr_lem log =
    elim (Option-cases (next_wait_version_log (record { memop = pos 0; version = pos 0 }) log)) [
      | inl z ↦ rw (z, mem_init_thr) (refl, refl, refl, refl, λ e w. cc)
      | inr ((wv, rest), z) ↦ rw (z, mem_init_thr) (refl, refl, refl, refl, λ e w. cc)
    ]

-- The recorder's logs start the replay where the recorded run starts.
pub start-Good :
    {prog : Program} {r : Recording} {content : ℕ → ℕ → ℕ} {memory : ℕ → ℕ} (nobj : ℕ)
    (merged : ℕ → List ReplayWaitMemop)
    → ProgramRun prog r content memory
    → Good r merged content (replay_start r nobj merged memory)
unfolding mem_init reads_of
start-Good {r} {content} {memory} nobj merged ran = (
  record {
    threads = mem_init_thr-ThreadInv r nobj (λ o. load_wait_reader_log (merged o));
    logs = λ o. load_wait_reader_log-LogInv r merged _ o (merged o) refl;
  },
  record {
    reads = λ t.
        let (zeroed, none_read, _, _, _) =
          mem_init_thr_lem (record_thread nobj (r.accesses t)).versions in
        none_read ∙ sym (ap (λ m. reads_of content (take m (r.accesses t))) zeroed);
    in_flight = λ t x o v h c. absurd (
        let plain = (mem_init_thr_lem (record_thread nobj (r.accesses t)).versions).2 in
        ground arith);
    in_store = λ t o v h c. absurd (
        let plain = (mem_init_thr_lem (record_thread nobj (r.accesses t)).versions).2 in
        ground arith);
    in_memory = λ o. inl (sym (ran.initial o));
  },
)

-- No write is done at the start, and no thread waits.
pub start-Done :
    (r : Recording) (nobj : ℕ) (merged : ℕ → List ReplayWaitMemop) (memory : ℕ → ℕ)
    → Done r merged (replay_start r nobj merged memory)
unfolding mem_init
start-Done r nobj merged memory = record {
  wrote = λ t m o v lt g.
      let (_, _, _, none_done, _) = mem_init_thr_lem (record_thread nobj (r.accesses t)).versions in
      absurd (omega (arith, none_done));
  waits = λ t o v e q c.
      let (_, _, _, _, quiet) = mem_init_thr_lem (record_thread nobj (r.accesses t)).versions in
      absurd (quiet e q);
}
