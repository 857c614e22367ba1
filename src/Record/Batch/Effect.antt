-- ===== src/Record/Batch/Effect.antt =====
-- mem-record-seqbatch.c: what the processing of one access adds to the logs, and that a batch
-- delays the processing only.
use mem_order.Base.{
  ℕ, ◌+◌, ◌==◌, if◌then◌else◌, ◌≡◌, List, [], ◌∷◌, ◌++◌, pos, negsuc, minus_one, arith, append-nil,
  refl, length, Bool-cases, inl, inr,
}
use mem_order.Trace.{Op-cases, rd, wr, Access}
use mem_order.Record.{LastObjinfo, Recorder}
use mem_order.Record.Emit.{version_entries, memop_entries}
use mem_order.Record.Batch.{
  BatmemAcc, BatchRecorder, process_1log, process_logs, batch_process_log, batch_access,
  batch_add_log,
}

-- The queued form of an access.
abbrev pub queued : Access → BatmemAcc
queued a = elim (a.op) [
  | rd ↦ record { objid = pos a.objid; version = a.version }
  | wr ↦ record { objid = negsuc a.objid; version = a.version }
]

-- The entry of `g_last` for the object of the access, afterwards.
unfoldable pub last_processed : Access → Recorder → LastObjinfo
last_processed a r = elim (a.op) [
  | rd ↦ record { version = a.version; memop = pos r.memop }
  | wr ↦ record { version = a.version; memop = minus_one }
]

module _ (a : Access) (r : Recorder) where
  pub memop-process_1log : (process_1log (queued a) r).memop ≡ r.memop + 1
  unfolding process_1log
  memop-process_1log = ground arith

  pub versions-process_1log :
      (process_1log (queued a) r).versions ≡ r.versions ++ version_entries a r
  unfolding process_1log version_entries
  versions-process_1log = ground (arith, append-nil r.versions)

  pub memops-process_1log : (process_1log (queued a) r).memops ≡ r.memops ++ memop_entries a r
  unfolding process_1log memop_entries
  memops-process_1log = ground (arith, append-nil r.memops)

  pub last-process_1log :
      (o : ℕ)
      → (process_1log (queued a) r).last o ≡ (if a.objid == o then last_processed a r else r.last o)
  unfolding process_1log last_processed
  last-process_1log o = ground arith

-- What the recorder holds once the queue is processed.
abbrev pub settled : BatchRecorder → Recorder
settled b = process_logs b.queue b.recorder

process_logs-append :
    (q : List BatmemAcc) (acc : BatmemAcc) (r : Recorder)
    → process_logs (q ++ (acc ∷ [])) r ≡ process_1log acc (process_logs q r)
unfolding process_logs
process_logs-append [] acc r = refl
process_logs-append (x ∷ q) acc r = process_logs-append q acc (process_1log x r)

settled-batch_add_log :
    (size : ℕ) (acc : BatmemAcc) (b : BatchRecorder)
    → settled (batch_add_log size acc.objid acc.version b) ≡ process_1log acc (settled b)
unfolding batch_add_log batch_process_log process_logs
settled-batch_add_log size acc b = elim (Bool-cases (length (b.queue ++ (acc ∷ [])) == size)) [
  | inl full ↦ rw full (process_logs-append b.queue acc b.recorder)
  | inr room ↦ rw room (process_logs-append b.queue acc b.recorder)
]

pub settled-batch_access :
    (size : ℕ) (a : Access) (b : BatchRecorder)
    → settled (batch_access size a b) ≡ process_1log (queued a) (settled b)
unfolding batch_access
settled-batch_access size a b = elim (Op-cases a.op) [
  | inl e ↦
      rw (e, queued)
        (settled-batch_add_log size (record { objid = pos a.objid; version = a.version }) b)
  | inr e ↦
      rw (e, queued)
        (settled-batch_add_log size (record { objid = negsuc a.objid; version = a.version }) b)
]
