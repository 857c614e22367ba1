-- ===== src/Replay/Faithful.antt =====
-- mem-replay.c: every interleaving of the replayed threads repeats the recorded run.
use mem_order.Base.{ℕ, ◌≡◌, ◌≢◌, inl, inr, true, List, some, get_elem?, take, arith}
use mem_order.Mem.{ReplayWaitMemop}
use mem_order.Trace.{Op, wr, access}
use mem_order.Trace.Order.{Recording}
use mem_order.Replay.Defs.{stored, aborted, State, Program, run}
use mem_order.Replay.Logs.{MergedLogs}
use mem_order.Replay.Invariant.Defs.{holds_version}
use mem_order.Replay.Invariant.Readers.{Bounded, same_writer}
use mem_order.Replay.Values.{reads_of, ProgramRun}
use mem_order.Replay.Step.{Good, run-Good}
use mem_order.Replay.Start.{replay_start, start-Good}

module _ {prog : Program} {r : Recording} {nobj : ℕ} {merged : ℕ → List ReplayWaitMemop}
    {content : ℕ → ℕ → ℕ} {memory : ℕ → ℕ} (logs : MergedLogs r nobj merged)
    (bounded : Bounded r nobj) (ran : ProgramRun prog r content memory) (ts : List ℕ) where
  abbrev replayed : State
  replayed = run prog ts (replay_start r nobj merged memory)

  replayed-Good : Good r merged content replayed
  replayed-Good =
      run-Good logs bounded ran ts (replay_start r nobj merged memory) (start-Good nobj merged ran)

  -- Given the run's merged logs, its objects below `nobj` and the program that ran, whatever
  -- the schedule: a replayed thread has read the values that it read when it was recorded, in
  -- the same order, as far as it has come.
  pub reads-replayed :
      (t : ℕ)
      → (replayed.thread t).reads ≡ reads_of content (take (replayed.thread t).memop (r.accesses t))
  reads-replayed t = replayed-Good.1.reads t

  -- Given the run's merged logs, its objects below `nobj` and the program that ran, whatever
  -- the schedule: no assertion of the replayer fails, no mutex is found held, and no log is
  -- read past its end.
  pub replayed-not_aborted : (t : ℕ) → (replayed.thread t).pc ≢ aborted
  replayed-not_aborted t q = let sane = (replayed-Good.0.threads t).sane in ground arith

  -- Given the run's merged logs, its objects below `nobj` and the program that ran, whatever
  -- the schedule: a thread that is past the wait for its object's version, and has not raised
  -- it, finds the object at the version of the recorded access.
  pub version-replayed :
      (t o v : ℕ) (op : Op)
      → get_elem? (r.accesses t) (replayed.thread t).memop ≡ some (access op o v)
      → holds_version (replayed.thread t).pc ≡ true
      → replayed.obj_version o ≡ v
  version-replayed t o v op cur h = (replayed-Good.0.threads t).at_version op o v cur h

  -- Given the run's merged logs, its objects below `nobj` and the program that ran, whatever
  -- the schedule: two threads in a write to one object, each past the wait for the object's version
  -- and not past raising it, are one thread.
  pub one_writer :
      (t u o v w : ℕ)
      → get_elem? (r.accesses t) (replayed.thread t).memop ≡ some (access wr o v)
      → get_elem? (r.accesses u) (replayed.thread u).memop ≡ some (access wr o w)
      → holds_version (replayed.thread t).pc ≡ true
      → holds_version (replayed.thread u).pc ≡ true
      → t ≡ u
  one_writer t u o v w ct cu ht hu = same_writer replayed replayed-Good.0 t u o v w ht hu ct cu

  -- Given the run's merged logs, its objects below `nobj` and the program that ran, whatever
  -- the schedule: where no thread stands between the store of a write and the new version, each
  -- object holds the value that it had at its version when it was recorded.
  pub memory-replayed :
      ((t : ℕ) → (replayed.thread t).pc ≢ stored)
      → (o : ℕ) → replayed.memory o ≡ content o (replayed.obj_version o)
  memory-replayed still o = elim (replayed-Good.1.in_memory o) [
    | inl e ↦ e
    | inr (t, v, q, cur) ↦ absurd (still t q)
  ]
