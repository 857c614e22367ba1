-- ===== src/Tests/Pipeline.antt =====
-- reorder-memop.cpp and merge-memop.cpp on the logs of the example.

use mathlib.Core.List.Memᴰ as MemD
use mem_order.Base.{◌≡◌, List, some, arith, inl, inr}
use mem_order.Trace.{view}
use mem_order.Trace.Growing.{view-Ordered}
use mem_order.Record.{record_thread}
use mem_order.Reorder.{SortedMemop, reorder_memop}
use mem_order.Reorder.Log.{Reordered, reorder_memop-record_thread}
use mem_order.Pipeline.{Within, view-objid}
use mem_order.Tests.Example.{events}

events-Within : Within 1 2 events
events-Within e m = elim (MemD.cases_cons m) [
  | inl p ↦ rw p (omega arith, omega arith)
  | inr m1 ↦ elim (MemD.cases_cons m1) [
    | inl p ↦ rw p (omega arith, omega arith)
    | inr m2 ↦ elim (MemD.cases_cons m2) [
      | inl p ↦ rw p (omega arith, omega arith)
      | inr m3 ↦ rw (MemD.eq_of_singleton m3) (omega arith, omega arith)
    ]
  ]
]

reorder_memop-record_thread_example :
    (out : List SortedMemop) × (reorder_memop 1 (record_thread 1 (view 1 (λ _. 0) events)).memops
      ≡ some out)
    × Reordered (record_thread 1 (view 1 (λ _. 0) events)).memops out
reorder_memop-record_thread_example =
    reorder_memop-record_thread 1 (view 1 (λ _. 0) events)
      (λ k op o v p. view-objid 1 1 (λ _. 0) events k op o v (λ e m. (events-Within e m).1) p)
      (view-Ordered 1 (λ _. 0) events)
