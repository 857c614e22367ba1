-- ===== src/Replay/Logs.antt =====
-- What the replayer is given: each thread's version log, and the memop logs merged by object.
use mathlib.Core.List.{Memᴰ}
use mem_order.Base.{ℕ, ◌≤◌, ◌≡◌, List, some, get_elem?}
use mem_order.Mem.{ReplayWaitMemop}
use mem_order.Trace.Order.{Recording}
use mem_order.Record.{record_thread}
use mem_order.Record.Reads.{read_log}

-- The merged memop logs of a recording: what `merge_memop` promises to `load_wait_reader_log`.
-- Every entry of an object lower than `nobj` in a thread's memop log is in the log of its object,
-- nothing else is, and each log is sorted by version.
pub record MergedLogs (r : Recording) (nobj : ℕ) (merged : ℕ → List ReplayWaitMemop) : Type 0 where
  pub complete :
      (t o v k : ℕ)
      → Memᴰ (read_log o v k) (record_thread nobj (r.accesses t)).memops
      → (i : ℕ) × (get_elem? (merged o) i ≡ some (record { version = v; memop = k; tid = t }))
  pub origin :
      (o i : ℕ) (e : ReplayWaitMemop)
      → get_elem? (merged o) i ≡ some e
      → Memᴰ (read_log o e.version e.memop) (record_thread nobj (r.accesses e.tid)).memops
  pub sorted :
      (o i j : ℕ) (e f : ReplayWaitMemop)
      → i ≤ j
      → get_elem? (merged o) i ≡ some e
      → get_elem? (merged o) j ≡ some f
      → e.version ≤ f.version
