-- ===== src/Record/Batch/Room.antt =====
-- mem-record-seqbatch.c: the queue has room for each access.
use mem_order.Base.{
  ℕ, ◌<◌, ◌==◌, List, [], ◌∷◌, ◌++◌, length, length-append, arith, inl, inr, Bool-cases, ℤ, pos,
  negsuc,
}
use mem_order.Trace.{Op-cases, Access}
use mem_order.Record.Batch.{
  BatmemAcc, BatchRecorder, batch_process_log, batch_add_log, batch_access, batch_all,
}

batch_add_log-room :
    (size : ℕ) (objid : ℤ) (version : ℕ) (b : BatchRecorder)
    → length b.queue < size
    → length (batch_add_log size objid version b).queue < size
unfolding batch_add_log batch_process_log
batch_add_log-room size objid version b lt =
    let acc : BatmemAcc = record { objid = objid; version = version } in
    let grown = length-append b.queue (acc ∷ []) in
    elim (Bool-cases (length (b.queue ++ (acc ∷ [])) == size)) [
      | inl full ↦ rw full (omega arith)
      | inr room ↦ rw room (ground (arith, grown))
    ]

-- From a queue with a free place, `g_batch_idx` is an index of `g_batch_q` again after every
-- access.
pub batch_all-room :
    (size : ℕ) (xs : List Access) (b : BatchRecorder)
    → length b.queue < size
    → length (batch_all size xs b).queue < size
unfolding batch_all batch_access
batch_all-room size [] b lt = lt
batch_all-room size (a ∷ xs) b lt =
    batch_all-room size xs (batch_access size a b) (elim (Op-cases a.op) [
      | inl e ↦ rw e (batch_add_log-room size (pos a.objid) a.version b lt)
      | inr e ↦ rw e (batch_add_log-room size (negsuc a.objid) a.version b lt)
    ])
