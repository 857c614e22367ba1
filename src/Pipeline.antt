-- ===== src/Pipeline.antt =====
-- test.sh (`process_log`): the recorders' logs, reordered and merged, are what the replayer expects.
pub mod Replayed
pub mod Recorded
pub mod Clustered
use mathlib.Core.List.{Memᴰ}
use mem_order.Base.{ℕ, ◌<◌, ◌≡◌, List, [], ◌∷◌, arith, refl, some, get_elem?, inl, inr}
use mem_order.Mem.{WaitMemop}
use mem_order.Trace.{Op, Event, access, advance, view}
use mem_order.Trace.Order.{recording, view-cases}
use mem_order.Trace.Growing.{view-Ordered}
use mem_order.Record.{record_thread}
use mem_order.Reorder.{SortedMemop, reorder_memop}
use mem_order.Reorder.Log.{Reordered, reorder_memop-record_thread}

-- The trace is of threads below `nthr` and of objects below `nobj`.
abbrev pub Within : ℕ → ℕ → List Event → Type 0
Within nobj nthr es = (e : Event) → Memᴰ e es → (e.tid < nthr) × (e.objid < nobj)

pub view-objid :
    (nobj t : ℕ) (ver : ℕ → ℕ) (es : List Event) (k : ℕ) (op : Op) (o v : ℕ)
    → ((e : Event) → Memᴰ e es → e.objid < nobj)
    → get_elem? (view t ver es) k ≡ some (access op o v)
    → o < nobj
unfolding view
view-objid nobj t ver [] k op o v h p = absurd cc
view-objid nobj t ver (e ∷ es) k op o v h p = elim (view-cases t ver e es k p) [
  | inl (own, i, x) ↦ let lt = h e (Memᴰ.head refl) in ground arith
  | inr (j, i, x) ↦ view-objid nobj t (advance ver e) es j op o v (λ y m. h y (Memᴰ.tail m)) x
]

module _ (nobj nthr : ℕ) (es : List Event) (within : Within nobj nthr es) where
  -- A thread's memop log.
  abbrev memop_log : ℕ → List WaitMemop
  memop_log t = (record_thread nobj ((recording es).accesses t)).memops

  reordered :
      (t : ℕ)
      → (out : List SortedMemop) × (reorder_memop nobj (memop_log t) ≡ some out)
        × Reordered (memop_log t) out
  unfolding recording
  reordered t =
      reorder_memop-record_thread nobj (view t (λ _. 0) es)
        (λ k op o v p. view-objid nobj t (λ _. 0) es k op o v (λ e m. (within e m).1) p)
        (view-Ordered t (λ _. 0) es)

  abbrev sorted_log : ℕ → List SortedMemop
  sorted_log t = (reordered t).0

  pub accesses_objid :
      (t k : ℕ) (op : Op) (o v : ℕ)
      → get_elem? ((recording es).accesses t) k ≡ some (access op o v)
      → o < nobj
  unfolding recording
  accesses_objid t k op o v p = view-objid nobj t (λ _. 0) es k op o v (λ e m. (within e m).1) p
