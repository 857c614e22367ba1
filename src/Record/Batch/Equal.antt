-- ===== src/Record/Batch/Equal.antt =====
-- mem-record-seqbatch.c and mem-record-seqlock.c: the same logs.
use mem_order.Base.{ℕ, zero, suc, ◌≡◌, List, [], ◌∷◌, refl, sym, arith, inl, inr, subst}
use mem_order.Trace.{Access}
use mem_order.Record.{
  LastObjinfo, Recorder, mem_init_thr, note_access, note_all, mem_finish_thr, mark_log_end,
  record_thread,
}
use mem_order.Record.Emit.{read_entry}
use mem_order.Record.Pending.{finish_entries, memops-finish_from, versions-finish_from}
use mem_order.Record.Batch.{
  BatchRecorder, batch_process_log, batch_all, batch_thread, batch_access, process_logs,
}
use mem_order.Record.Batch.Effect.{settled, settled-batch_access}
use mem_order.Trace.Growing.{Ordered, Ordered-head, Ordered-tail}
use mem_order.Record.Batch.Same.{Same, SameLast, note_access-Same}

batch_all-Same :
    (size : ℕ) (xs : List Access) (r : Recorder) (b : BatchRecorder)
    → Ordered xs
    → Same xs r (settled b)
    → Same [] (note_all xs r) (settled (batch_all size xs b))
unfolding note_all batch_all
batch_all-Same size [] r b ord s = s
batch_all-Same size (a ∷ xs) r b ord s =
    batch_all-Same size xs (note_access a r) (batch_access size a b) (Ordered-tail a xs ord) (
      subst (λ c. Same xs (note_access a r) c) (sym (settled-batch_access size a b))
        (note_access-Same a xs r (settled b) (Ordered-head a xs ord) s))

read_entry-SameLast :
    (o : ℕ) (l k : LastObjinfo) → SameLast o [] l k → read_entry o l ≡ read_entry o k
unfolding read_entry
read_entry-SameLast o l k (inl (e, h)) = rw e
read_entry-SameLast o l k (inr (p, q, h, g)) = ground arith

finish_entries-SameLast :
    (i n : ℕ) (f g : ℕ → LastObjinfo)
    → ((o : ℕ) → SameLast o [] (f o) (g o))
    → finish_entries i n f ≡ finish_entries i n g
unfolding finish_entries
finish_entries-SameLast i zero f g h = refl
finish_entries-SameLast i (suc n) f g h =
    rw (read_entry-SameLast i (f i) (g i) (h i), finish_entries-SameLast (suc i) n f g h)

mem_finish_thr-Same :
    (nobj : ℕ) (r b : Recorder)
    → Same [] r b
    → ((mem_finish_thr nobj r).versions ≡ (mem_finish_thr nobj b).versions)
      × ((mem_finish_thr nobj r).memops ≡ (mem_finish_thr nobj b).memops)
unfolding mem_finish_thr mark_log_end
mem_finish_thr-Same nobj r b s = (
  rw (versions-finish_from 0 nobj r, versions-finish_from 0 nobj b, s.versions),
  rw (
    memops-finish_from 0 nobj r,
    memops-finish_from 0 nobj b,
    s.memops,
    finish_entries-SameLast 0 nobj r.last b.last s.last,
  ),
)

started :
    (xs : List Access)
    → Same xs mem_init_thr (settled (record { recorder = mem_init_thr; queue = [] }))
unfolding process_logs
started xs = record {
  memop = refl;
  versions = refl;
  memops = refl;
  last = λ o. inl (refl, λ k v op p. omega arith);
}

-- A thread whose accesses to each object come with growing versions, larger ones after its own
-- writes, leaves the same logs in batches as it does directly.
pub batch_thread-record_thread :
    (size nobj : ℕ) (xs : List Access)
    → Ordered xs
    → ((record_thread nobj xs).versions ≡ (batch_thread size nobj xs).versions)
      × ((record_thread nobj xs).memops ≡ (batch_thread size nobj xs).memops)
unfolding record_thread batch_thread batch_process_log
batch_thread-record_thread size nobj xs ord =
    mem_finish_thr-Same nobj (note_all xs mem_init_thr) _ (
      batch_all-Same size xs mem_init_thr (record { recorder = mem_init_thr; queue = [] }) ord
        (started xs))
