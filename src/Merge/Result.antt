-- ===== src/Merge/Result.antt =====
-- merge-memop.cpp: what the replayer loads from the files.
use mathlib.Core.List.{Memᴰ}
use mathlib.Core.List.Memᴰ as MemD
use mem_order.Base.{ℕ, ◌<◌, ◌≤◌, ◌≡◌, List, [], map, some, get_elem?}
use mem_order.Mem.{ReplayWaitMemop}
use mem_order.Reorder.{SortedMemop}
use mem_order.Reorder.Sorted.{Sorted}
use mem_order.Merge.{
  QueEnt, Waiting, MergeFiles, finish_index, entry_count, empty_files, object_log,
}
use mem_order.Merge.Queue.{LogQueue}
use mem_order.Merge.Order.{write_all, merge_order}
use mem_order.Merge.Start.{filled}
use mem_order.Merge.Count.{strip, ents_of}

-- The loaded logs hold the entries of `logs`, each with its thread, and are sorted by version.
pub record Loaded (nobj : ℕ) (logs : ℕ → List SortedMemop) (loaded : ℕ → List ReplayWaitMemop)
    : Type 0 where
  pub complete :
      (t : ℕ) (w : SortedMemop)
      → Memᴰ w (logs t)
      → (i : ℕ) × (get_elem? (loaded w.objid) i
          ≡ some (record { version = w.version; memop = w.memop; tid = t }))
  pub origin :
      (o i : ℕ) (e : ReplayWaitMemop)
      → get_elem? (loaded o) i ≡ some e
      → Memᴰ (record { objid = o; version = e.version; memop = e.memop }) (logs e.tid)
  pub sorted :
      (o i j : ℕ) (e f : ReplayWaitMemop)
      → i ≤ j
      → get_elem? (loaded o) i ≡ some e
      → get_elem? (loaded o) j ≡ some f
      → e.version ≤ f.version

module _ (lq : LogQueue) (nobj nthr : ℕ) (logs : ℕ → List SortedMemop)
    (beyond : (t : ℕ) → nthr ≤ t → logs t ≡ []) (sorted : (t : ℕ) → Sorted (logs t))
    (below : (t : ℕ) (w : SortedMemop) → Memᴰ w (logs t) → w.objid < nobj) where
  abbrev start : Waiting
  start = filled lq nthr logs beyond sorted

  -- The entries in the order in which they are written.
  abbrev merged : List QueEnt
  merged = merge_order lq (entry_count nthr logs) start

  abbrev FilesOf : List QueEnt → Type 0
  FilesOf es =
      (m : MergeFiles) × (write_all es empty_files ≡ some m)
      × ((u : ℕ) → u < nobj → object_log (some (finish_index nobj m)) u ≡ map strip (ents_of u es))
