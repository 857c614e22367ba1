-- ===== src/Merge.antt =====
-- merge-memop.cpp: the sorted logs of all threads, merged into one file with an index by object.
pub mod Queue
pub mod Pending
pub mod Pop
pub mod Order
pub mod Start
pub mod Count
pub mod Skip
pub mod Index
pub mod Opening
pub mod Files
pub mod Slices
pub mod Result
use mem_order.Base.{
  ℕ, zero, suc, ◌+◌, ◌-◌, ◌*◌, ◌==◌, ltb, if◌then◌else◌, Bool, true, false, List, [], ◌∷◌, ◌++◌, ℤ,
  pos, negsuc, minus_one, eq_ℤ, Option, none, some, update, length, take, drop,
}
use mem_order.Mem.{ReplayWaitMemop}
use mem_order.Reorder.{SortedMemop}

pub record QueEnt : Type 0 where
  pub tid : ℕ
  pub wop : SortedMemop

-- `operator>`
abbrev pub gt : QueEnt → QueEnt → Bool
gt a b =
    if a.wop.objid == b.wop.objid
    then ltb b.wop.version a.wop.version
    else ltb b.wop.objid a.wop.objid

-- The queue, and what is left of each thread's log.
pub record Waiting : Type 0 where
  pub queue : List QueEnt
  pub logs : ℕ → List SortedMemop

abbrev pub enqueue_first : ℕ → List SortedMemop → Waiting → Waiting
enqueue_first t [] p = p
enqueue_first t (w ∷ ws) p = record {
  queue = record { tid = t; wop = w } ∷ p.queue;
  logs = update p.logs t ws;
}

unfoldable pub enqueue_next_waitmemop : ℕ → Waiting → Waiting
enqueue_next_waitmemop t p = enqueue_first t (p.logs t) p

-- The files while they are written: `next_mwm` stands at the end of `memop_log`, and `indexbuf` at
-- the place `at`.
pub record MergeFiles : Type 0 where
  pub memop_log : List ReplayWaitMemop
  pub index : ℕ → ℤ
  pub at : ℕ
  pub prev_id : ℤ
  pub cnt : ℕ
  pub prev_cnt : ℕ

-- `*indexbuf++ = v`
abbrev pub put : ℤ → MergeFiles → MergeFiles
put v m = record m { index = update m.index m.at v; at = m.at + 1 }

-- The entries of objects without a log, `n` of them.
unfoldable pub skip_objects : ℕ → MergeFiles → MergeFiles
skip_objects zero m = m
skip_objects (suc n) m = skip_objects n (put (pos 0) (put minus_one m))

-- `prev_id + 1`
abbrev pub next_id : ℤ → ℕ
next_id (pos o) = o + 1
next_id (negsuc _) = 0

-- The number of the previous object's entries, with its assertion.
unfoldable pub close_object : MergeFiles → Option MergeFiles
close_object m =
    if eq_ℤ m.prev_id minus_one
    then some m
    else if ltb m.prev_cnt m.cnt
    then some (put (pos (m.cnt - m.prev_cnt)) m)
    else none

unfoldable pub open_object : ℕ → MergeFiles → MergeFiles
open_object o m = record (put (pos m.cnt) (skip_objects (o - next_id m.prev_id) m)) {
  prev_cnt = m.cnt;
  prev_id = pos o;
}

abbrev pub add_entry : QueEnt → MergeFiles → MergeFiles
add_entry e m = record m {
  memop_log =
      m.memop_log ++ (record { version = e.wop.version; memop = e.wop.memop; tid = e.tid } ∷ []);
  cnt = m.cnt + 1;
}

-- One round of the loop, but for the queue.
unfoldable pub write_entry : QueEnt → MergeFiles → Option MergeFiles
write_entry e m =
    if eq_ℤ m.prev_id (pos e.wop.objid) then some (add_entry e m) else elim (close_object m) [
      | none ↦ none
      | some m' ↦ some (add_entry e (open_object e.wop.objid m'))
    ]

-- What follows the loop.
unfoldable pub finish_index : ℕ → MergeFiles → MergeFiles
unfolding skip_objects
finish_index nobj m = skip_objects (nobj - next_id m.prev_id) (put (pos (m.cnt - m.prev_cnt)) m)

abbrev pub empty_files : MergeFiles
empty_files = record {
  memop_log = [];
  index = λ _. pos 0;
  at = 0;
  prev_id = minus_one;
  cnt = 0;
  prev_cnt = 0;
}

-- The entries of the logs of the threads below `n`.
unfoldable pub entry_count : ℕ → (ℕ → List SortedMemop) → ℕ
entry_count zero logs = 0
entry_count (suc n) logs = length (logs n) + entry_count n logs

-- The loop that fills the queue, over the threads from `i` on, `n` of them.
unfoldable pub enqueue_from : ℕ → ℕ → Waiting → Waiting
unfolding enqueue_next_waitmemop
enqueue_from i zero p = p
enqueue_from i (suc n) p = enqueue_from (suc i) n (enqueue_next_waitmemop i p)

-- `load_wait_reader_log` of mem-replay.c: an object's part of the files.
abbrev pub slice : ℤ → ℤ → List ReplayWaitMemop → List ReplayWaitMemop
slice (pos i) (pos n) log = take n (drop i log)
slice _ _ log = []

-- `none` stands for files that do not exist.
unfoldable pub object_log : Option MergeFiles → ℕ → List ReplayWaitMemop
object_log none o = []
object_log (some m) o =
    if eq_ℤ (m.index (2 * o)) minus_one
    then []
    else slice (m.index (2 * o)) (m.index (2 * o + 1)) m.memop_log

-- The loop of `load_wait_reader_log` over the objects.
unfoldable pub loaded_log : ℕ → Option MergeFiles → ℕ → List ReplayWaitMemop
loaded_log nobj files o = if ltb o nobj then object_log files o else []
