-- ===== src/Reorder.antt =====
-- reorder-memop.cpp: a thread's memop log, grouped by object.
pub mod Load
pub mod Reads
pub mod Rising
pub mod Sorted
pub mod Log
use mem_order.Base.{
  ℕ, zero, suc, ◌+◌, ◌==◌, ltb, if◌then◌else◌, true, false, List, [], ◌∷◌, ◌++◌, ℤ, pos, negsuc,
  minus_one, eq_ℤ, Option, none, some, update,
}
use mem_order.Mem.{WaitMemop}

-- An entry of a "sorted-memop" log, which holds no mark.
pub record SortedMemop : Type 0 where
  pub objid : ℕ
  pub version : ℕ
  pub memop : ℕ

-- The check of the object's range. A negative version, and a negative memop other than -1, are
-- refused as well: no recorder writes one.
abbrev pub sorted_memop : ℕ → ℤ → ℤ → ℤ → Option SortedMemop
sorted_memop nobj (pos o) (pos v) (pos k) =
    if ltb o nobj then some (record { objid = o; version = v; memop = k }) else none
sorted_memop _ _ _ _ = none

-- `all`, and the entries that it holds.
pub record WaitMemopAll : Type 0 where
  pub all : ℕ → List SortedMemop
  pub total : ℕ

-- `all[wmlog->objid].push_back(*wmlog)`
abbrev pub push_back : SortedMemop → WaitMemopAll → WaitMemopAll
push_back w a = record {
  all = update a.all w.objid (a.all w.objid ++ (w ∷ []));
  total = a.total + 1;
}

-- `none` is a failed assertion, or a log without an end mark.
unfoldable pub load_wait_memop_log : ℕ → List WaitMemop → WaitMemopAll → Option WaitMemopAll
load_wait_memop_log nobj [] a = none
load_wait_memop_log nobj (e ∷ rest) a = elim (eq_ℤ e.objid minus_one) [
  | true ↦ some a
  | false ↦ elim (eq_ℤ e.memop minus_one) [
    | true ↦ load_wait_memop_log nobj rest a
    | false ↦ elim (sorted_memop nobj e.objid e.version e.memop) [
      | none ↦ none
      | some w ↦ load_wait_memop_log nobj rest (push_back w a)
    ]
  ]
]

-- The loop of `write_out_memop_log` over the objects from `i` on, `n` of them.
unfoldable pub write_out_memop_log : ℕ → ℕ → (ℕ → List SortedMemop) → List SortedMemop
write_out_memop_log i zero all = []
write_out_memop_log i (suc n) all = all i ++ write_out_memop_log (suc i) n all

-- `main`: the new log, which is empty where no file is written.
unfoldable pub reorder_memop : ℕ → List WaitMemop → Option (List SortedMemop)
unfolding load_wait_memop_log write_out_memop_log
reorder_memop nobj log = elim (load_wait_memop_log nobj log (record { all = λ _. []; total = 0 })) [
  | none ↦ none
  | some a ↦ some (if a.total == 0 then [] else write_out_memop_log 0 nobj a.all)
]
