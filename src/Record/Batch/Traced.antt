-- ===== src/Record/Batch/Traced.antt =====
-- mem-record-seqbatch.c: a thread of a trace meets the order that the batched logs need.
use mem_order.Base.{ℕ, ◌≡◌, List}
use mem_order.Trace.{Event, view}
use mem_order.Record.{record_thread}
use mem_order.Record.Batch.{batch_thread}
use mem_order.Trace.Growing.{view-Ordered}
use mem_order.Record.Batch.Equal.{batch_thread-record_thread}

-- A thread of a trace leaves the same version log and the same memop log in batches as it does
-- directly.
pub batch_thread-view :
    (size nobj t : ℕ) (ver : ℕ → ℕ) (es : List Event)
    → ((record_thread nobj (view t ver es)).versions
        ≡ (batch_thread size nobj (view t ver es)).versions)
      × ((record_thread nobj (view t ver es)).memops
          ≡ (batch_thread size nobj (view t ver es)).memops)
batch_thread-view size nobj t ver es =
    batch_thread-record_thread size nobj (view t ver es) (view-Ordered t ver es)
