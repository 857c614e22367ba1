-- ===== src/Cluster.antt =====
-- mem-record-rtmcluster.c: `mem_read` and `mem_write` of all threads, interleaved, with a
-- transaction over a block of calls.
pub mod Run
use mem_order.Base.{
  ℕ, zero, suc, ◌%◌, ◌+◌, ◌==◌, if◌then◌else◌, Bool, true, false, List, [], ◌∷◌, none, some, Option,
  update,
}
use mem_order.Mem.{rtm_batch_n}
use mem_order.Trace.{Access}
use mem_order.Record.{Recorder}
use mem_order.Record.Batch.{BatchRecorder, batch_access, batch_thread}
use mem_order.Replay.Defs.{Call, read, write, Program}
use mem_order.Atomic.{finish_read, finish_write, issue}
use mem_order.Seqlock.{
  RecordPc, outside, RecordState, set_pc, return_call, seqlock_turn, enter, start_recorders,
}

-- The log taking is that of mem-record-seqbatch.c, with a queue as long as a block.
abbrev pub cluster_access : Access → BatchRecorder → BatchRecorder
cluster_access = batch_access rtm_batch_n

-- A thread's logs, where `before_finish_thr` empties the queue.
abbrev pub cluster_thread : ℕ → List Access → Recorder
cluster_thread = batch_thread rtm_batch_n

-- A call inside of a transaction; `none` is `_xabort`.
unfoldable pub transact : ℕ → Call → RecordState → Option RecordState
transact t (read o) s =
    if s.version o % 2 == 1
    then none
    else some (return_call t (finish_read o (s.version o) (s.memory o) (s.client t)) s)
transact t (write o x) s =
    if s.write_lock o
    then none
    else some (
        return_call t (finish_write o (s.version o) (s.client t)) (record s {
          version = update s.version o (s.version o + 2);
          memory = update s.memory o x;
        }))

-- A transaction over `n` calls, or fewer where the program ends: `before_finish_thr` then ends it.
unfoldable pub transact_block : Program → ℕ → ℕ → RecordState → Option RecordState
unfolding transact
transact_block prog t zero s = some s
transact_block prog t (suc n) s = elim (issue prog t (s.client t)) [
  | none ↦ some s
  | some call ↦ elim (transact t call s) [ none ↦ none | some s' ↦ transact_block prog t n s' ]
]

-- The beginning of a block. A transaction that is aborted, by itself or by the hardware, leaves the
-- block's calls to the seqlock.
unfoldable pub begin_block : Program → Bool → ℕ → Call → RecordState → RecordState
unfolding transact_block
begin_block prog false t call s = set_pc t (enter call) s
begin_block prog true t call s = elim (transact_block prog t rtm_batch_n s) [
  | none ↦ set_pc t (enter call) s
  | some s' ↦ s'
]

-- `g_sim_bbcnt` is the number of the thread's calls.
unfoldable pub cluster_step : Program → Bool → ℕ → RecordPc → RecordState → RecordState
unfolding begin_block seqlock_turn
cluster_step prog tx t outside s = elim (issue prog t (s.client t)) [
  | none ↦ s
  | some call ↦
      if (s.client t).recorder.memop % rtm_batch_n == 0
      then begin_block prog tx t call s
      else set_pc t (enter call) s
]
cluster_step prog tx t p s = seqlock_turn t p s

unfoldable pub run_cluster : Program → List (ℕ × Bool) → RecordState → RecordState
unfolding cluster_step
run_cluster prog [] s = s
run_cluster prog ((t, tx) ∷ ts) s = run_cluster prog ts (cluster_step prog tx t (s.pc t) s)
