-- ===== src/Pipeline/Recorded.antt =====
-- A program that the recorders run, and that is replayed from the logs that they leave.

use mathlib.Core.List.Memᴰ as MemD
use mem_order.Base.{ℕ, ◌<◌, ◌≤◌, ◌≡◌, ◌≢◌, Bool, List, [], ◌++◌, Option, some, none, ◌⊎◌}
use mem_order.Trace.Order.{recording}
use mem_order.Record.Batch.{batch_thread}
use mem_order.Record.{Recorder, mem_finish_thr, record_thread}
use mem_order.Reorder.{SortedMemop, reorder_memop}
use mem_order.Merge.{MergeFiles, loaded_log}
use mem_order.Merge.Queue.{LogQueue, merge_memop}
use mem_order.Replay.Defs.{aborted, Call, State, Program, run, mem_init, objid}
use mem_order.Atomic.{Client, AtomicState, issue, atomic_run, atomic_start}
use mem_order.Atomic.History.{History, accesses}
use mem_order.Atomic.Complete.{Stops}
use mem_order.Seqlock.{RecordState, RecorderKind, run_recorders, start_recorders}
use mem_order.Seqlock.Run.{run_recorders-Refines}

-- The program runs on threads below `nthr` and objects below `nobj`.
abbrev pub Fits : ℕ → ℕ → Program → Type 0
Fits nobj nthr prog =
    (t m : ℕ) (reads : List ℕ) (call : Call)
    → prog t m reads ≡ some call
    → (t < nthr) × (objid call < nobj)

-- The replay's state at the start, from what the threads left and the tools wrote.
abbrev begins : ℕ → Option MergeFiles → (ℕ → Recorder) → (ℕ → ℕ) → State
begins nobj files left memory = mem_init (loaded_log nobj files) (λ u. (left u).versions) memory

-- No check fails, and each thread has read a first part of what it read when it was recorded, and
-- all of it once it has made as many calls.
abbrev Repeated : (ℕ → Client) → State → Type 0
Repeated client s =
    (t : ℕ)
    → ((s.thread t).pc ≢ aborted)
      × (rest : List ℕ) × ((s.thread t).reads ++ rest ≡ (client t).reads)
      × (((s.thread t).memop < (client t).recorder.memop) ⊎ (rest ≡ []))

-- Each thread has made its calls and has read what it read when it was recorded.
abbrev AllRead : (ℕ → Client) → State → Type 0
AllRead client s =
    (t : ℕ)
    → ((client t).recorder.memop ≤ (s.thread t).memop) × ((s.thread t).reads ≡ (client t).reads)

-- No check of the tools fails on the logs that the threads leave. In a replay from their files,
-- whatever its schedule, no check fails, and each thread has read a first part of what it read
-- when it was recorded, and all of it once it has made as many calls. From wherever the replay
-- stands, some further steps let each thread make its calls and read all of it.
abbrev pub Repeats : LogQueue → Program → ℕ → ℕ → (ℕ → ℕ) → (ℕ → Client) → (ℕ → Recorder) → Type 0
Repeats lq prog nobj nthr memory client left =
    (logs : ℕ → List SortedMemop) × (files : Option MergeFiles) × ((t : ℕ)
      → reorder_memop nobj (left t).memops ≡ some (logs t))
    × (merge_memop lq nobj nthr logs ≡ some files)
    × ((ts : List ℕ) → Repeated client (run prog ts (begins nobj files left memory)))
    × ((ts : List ℕ)
        → (us : List ℕ) × AllRead client (run prog (ts ++ us) (begins nobj files left memory)))

-- A thread's logs at its end, from a recorder that takes them directly.
abbrev pub direct_logs : ℕ → (ℕ → Client) → ℕ → Recorder
direct_logs nobj client t = mem_finish_thr nobj (client t).recorder

-- The same from a recorder that takes them in batches of `size`.
abbrev pub batched_logs : ℕ → ℕ → (ℕ → Client) → ℕ → Recorder
batched_logs size nobj client t = batch_thread size nobj (client t).noted

-- The threads leave the logs of the accesses of `a`.
abbrev SameLogs : ℕ → AtomicState → (ℕ → Recorder) → Type 0
SameLogs nobj a left =
    (t : ℕ)
    → ((record_thread nobj ((recording a.trace).accesses t)).versions ≡ (left t).versions)
      × ((record_thread nobj ((recording a.trace).accesses t)).memops ≡ (left t).memops)

module _ (nobj nthr : ℕ) (few : nthr < 128) (prog : Program) (fits : Fits nobj nthr prog) where
  module _ (stops : Stops prog) (lq : LogQueue) (kind : RecorderKind) (ts : List (ℕ × Bool))
      (memory : ℕ → ℕ)
      (ended : (t : ℕ)
        → t < nthr
        → issue prog t ((run_recorders kind prog ts (start_recorders memory)).client t)
          ≡ none) where
    abbrev at_end : RecordState
    at_end = run_recorders kind prog ts (start_recorders memory)

    abbrev atomic_end : AtomicState
    atomic_end = atomic_run prog (run_recorders-Refines kind prog ts memory).0 (atomic_start memory)
