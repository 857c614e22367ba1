-- ===== src/Record/Batch.antt =====
-- mem-record-seqbatch.c: log taking in batches.
pub mod Effect
pub mod Same
pub mod Equal
pub mod Traced
pub mod Room
use mem_order.Base.{
  ℕ, ◌+◌, ◌==◌, if◌then◌else◌, List, [], ◌∷◌, ◌++◌, ℤ, pos, negsuc, minus_one, complement, is_neg,
  length,
}
use mem_order.Trace.{rd, wr, Access}
use mem_order.Record.{Recorder, mem_init_thr, log_order, set_last, mem_finish_thr}

-- `struct batmem_acc`: a negative objid marks a write.
pub record BatmemAcc : Type 0 where
  pub objid : ℤ
  pub version : ℕ

abbrev pub batch_log_size : ℕ
batch_log_size = 97

-- The recorder, and the accesses in `g_batch_q` below `g_batch_idx`.
pub record BatchRecorder : Type 0 where
  pub recorder : Recorder
  pub queue : List BatmemAcc

-- `~acc->objid` for a write.
abbrev pub acc_objid : ℤ → ℕ
acc_objid (pos o) = o
acc_objid (negsuc o) = o

unfoldable pub process_1log : BatmemAcc → Recorder → Recorder
unfolding log_order
process_1log acc r =
    let objid = acc_objid acc.objid in
    let last = r.last objid in
    let logged =
      if last.version == acc.version
      then r
      else set_last objid (record last { version = acc.version })
          (log_order objid acc.version last r) in
    let logged_last = logged.last objid in
    record (set_last objid
      (record logged_last { memop = if is_neg acc.objid then minus_one else pos logged.memop })
      logged) { memop = logged.memop + 1 }

-- The loop of `batch_process_log`.
unfoldable pub process_logs : List BatmemAcc → Recorder → Recorder
process_logs [] r = r
process_logs (acc ∷ queue) r = process_logs queue (process_1log acc r)

unfoldable pub batch_process_log : BatchRecorder → BatchRecorder
batch_process_log b = record { recorder = process_logs b.queue b.recorder; queue = [] }

-- `size` is the number of places of `g_batch_q`.
unfoldable pub batch_add_log : ℕ → ℤ → ℕ → BatchRecorder → BatchRecorder
unfolding batch_process_log
batch_add_log size objid version b =
    let added = record b {
      queue = b.queue ++ (record { objid = objid; version = version } ∷ []);
    } in
    if length added.queue == size then batch_process_log added else added

-- The ends of `mem_read` and `mem_write`: `batch_read_log` and `batch_write_log`.
unfoldable pub batch_access : ℕ → Access → BatchRecorder → BatchRecorder
unfolding batch_add_log
batch_access size a b = elim (a.op) [
  | rd ↦ batch_add_log size (pos a.objid) a.version b
  | wr ↦ batch_add_log size (complement (pos a.objid)) a.version b
]

unfoldable pub batch_all : ℕ → List Access → BatchRecorder → BatchRecorder
batch_all size [] b = b
batch_all size (a ∷ xs) b = batch_all size xs (batch_access size a b)

-- A whole run of one thread: `before_finish_thr` empties the queue.
unfoldable pub batch_thread : ℕ → ℕ → List Access → Recorder
unfolding batch_all batch_process_log
batch_thread size nobj xs =
    mem_finish_thr nobj
      (batch_process_log
        (batch_all size xs (record { recorder = mem_init_thr; queue = [] }))).recorder
