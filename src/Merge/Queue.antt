-- ===== src/Merge/Queue.antt =====
-- merge-memop.cpp: `LogQueue`, a `priority_queue` of the C++ library, and the loop that empties it.
use mathlib.Core.List.{Memᴰ}
use mem_order.Base.{
  ℕ, zero, suc, ◌==◌, ◌≡◌, if◌then◌else◌, false, List, [], ◌∷◌, Option, none, some, length, ◌⊎◌,
  pos, eq_ℤ,
}
use mem_order.Mem.{tid_of}
use mem_order.Reorder.{SortedMemop}
use mem_order.Merge.{
  QueEnt, gt, Waiting, enqueue_next_waitmemop, MergeFiles, write_entry, finish_index, empty_files,
  entry_count, enqueue_from,
}

-- The library's queue, as its documentation has it: `top` and `pop` take a least entry out of a
-- queue that is not empty. Which one of several least entries is not said.
pub record LogQueue : Type 0 where
  pub pop : List QueEnt → Option (QueEnt × List QueEnt)
  pub pop_empty : pop [] ≡ none
  pub pop_some :
      (e : QueEnt) (q : List QueEnt)
      → (x : QueEnt) × (rest : List QueEnt) × (pop (e ∷ q) ≡ some (x, rest))
  pub taken : (q rest : List QueEnt) (x : QueEnt) → pop q ≡ some (x, rest) → Memᴰ x q
  pub kept : (q rest : List QueEnt) (x e : QueEnt) → pop q ≡ some (x, rest) → Memᴰ e rest → Memᴰ e q
  pub split :
      (q rest : List QueEnt) (x e : QueEnt)
      → pop q ≡ some (x, rest)
      → Memᴰ e q
      → (e ≡ x) ⊎ Memᴰ e rest
  pub least :
      (q rest : List QueEnt) (x e : QueEnt) → pop q ≡ some (x, rest) → Memᴰ e rest → gt x e ≡ false
  pub shorter :
      (q rest : List QueEnt) (x : QueEnt) → pop q ≡ some (x, rest) → length q ≡ suc (length rest)

module _ (lq : LogQueue) where
  -- The loop `while (! pq.empty())`; `none` is a failed assertion, or no fuel.
  unfoldable pub merge_loop : ℕ → Waiting → MergeFiles → Option MergeFiles
  unfolding enqueue_next_waitmemop write_entry
  merge_loop zero p m = elim (lq.pop p.queue) [ none ↦ some m | some _ ↦ none ]
  merge_loop (suc n) p m = elim (lq.pop p.queue) [
    | none ↦ some m
    | some (e, rest) ↦ elim (write_entry e m) [
      | none ↦ none
      | some m' ↦ merge_loop n (enqueue_next_waitmemop e.tid (record p { queue = rest })) m'
    ]
  ]

  -- `main` opens `nthr` logs and passes `(tid_t)nthr`, and the first assertion compares the two. The
  -- outer `none` is a failed assertion; where all logs are empty, no file is written. Each
  -- round takes one of the entries, so there are as many rounds as entries.
  unfoldable pub merge_memop : ℕ → ℕ → (ℕ → List SortedMemop) → Option (Option MergeFiles)
  unfolding merge_loop finish_index entry_count enqueue_from
  merge_memop nobj nthr logs =
      if eq_ℤ (pos nthr) (tid_of nthr)
      then (if entry_count nthr logs == 0
          then some none
          else elim (merge_loop (entry_count nthr logs)
              (enqueue_from 0 nthr (record { queue = []; logs = logs })) empty_files) [
                | none ↦ none
                | some m ↦ some (some (finish_index nobj m))
              ])
      else none
