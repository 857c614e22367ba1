-- ===== src/Tests/Record.antt =====
-- mem-record-seqlock.c: the logs of a thread with two or three accesses.
use mathlib.Core.List.{Memᴰ}
use mem_order.Base.{length, List, ◌<◌, negsuc, ◌≡◌, [], ◌∷◌, arith, refl, sym, subst, ◌⊎◌}
use mem_order.Trace.{Event, rd, wr, access, view}
use mem_order.Record.{mem_init_thr, record_thread, note_access}
use mem_order.Record.Batch.{batch_thread, batch_all, batch_log_size}
use mem_order.Record.Batch.Room.{batch_all-room}
use mem_order.Record.Batch.Traced.{batch_thread-view}
use mem_order.Record.Reads.{read_log, read-logged, LoggedFrom, WritesAfter}
use mem_order.Record.Origin.{LogsRead, logged-LogsRead}
use mem_order.Record.Pending.{memop_end}

two_reads :
    (record_thread 1 (access rd 0 0 ∷ access rd 0 2 ∷ [])).memops
    ≡ read_log 0 0 0
      ∷ read_log 0 2 1
      ∷ record { objid = negsuc 0; version = negsuc 0; memop = negsuc 0 }
      ∷ []
unfolding record_thread note_access
two_reads = refl

read-logged_example :
    LoggedFrom 0 0 0 (record_thread 1 (access rd 0 0 ∷ access wr 0 0 ∷ [])).memops
    ⊎ WritesAfter 0 0 0 (access rd 0 0 ∷ access wr 0 0 ∷ [])
read-logged_example = read-logged 1 0 0 (omega arith) (access rd 0 0 ∷ access wr 0 0 ∷ []) 0 refl

logged-LogsRead_example :
    LogsRead (access rd 0 0 ∷ access rd 0 2 ∷ []) (read_log 0 2 1) ⊎ (read_log 0 2 1 ≡ memop_end)
logged-LogsRead_example =
    logged-LogsRead 1 (access rd 0 0 ∷ access rd 0 2 ∷ []) (read_log 0 2 1)
      (subst (λ l. Memᴰ (read_log 0 2 1) l) (sym two_reads) (Memᴰ.tail (Memᴰ.head refl)))

abbrev two_threads : List Event
two_threads =
    record { tid = 0; op = rd; objid = 0 }
    ∷ record { tid = 0; op = wr; objid = 0 }
    ∷ record { tid = 1; op = wr; objid = 0 }
    ∷ []

batch_thread-view_example :
    ((record_thread 1 (view 0 (λ _. 0) two_threads)).versions
      ≡ (batch_thread batch_log_size 1 (view 0 (λ _. 0) two_threads)).versions)
    × ((record_thread 1 (view 0 (λ _. 0) two_threads)).memops
        ≡ (batch_thread batch_log_size 1 (view 0 (λ _. 0) two_threads)).memops)
batch_thread-view_example = batch_thread-view batch_log_size 1 0 (λ _. 0) two_threads

batch_all-room_example :
    length
      (batch_all batch_log_size
        (access rd 0 0 ∷ access wr 0 0 ∷ [])
        (record { recorder = mem_init_thr; queue = [] })).queue
    < batch_log_size
batch_all-room_example =
    batch_all-room batch_log_size (access rd 0 0 ∷ access wr 0 0 ∷ [])
      (record { recorder = mem_init_thr; queue = [] }) (omega arith)
