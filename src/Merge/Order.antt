-- ===== src/Merge/Order.antt =====
-- merge-memop.cpp: the order in which the queue gives out the entries.
use mathlib.Core.List.{Memᴰ}
use mathlib.Core.List.Memᴰ as MemD
use mem_order.Base.{
  ℕ, zero, suc, ◌≡◌, List, [], ◌∷◌, arith, inl, inr, Option, none, some, Option-cases,
}
use mem_order.Reorder.Sorted.{KeyLe}
use mem_order.Merge.{QueEnt, Waiting, MergeFiles, write_entry}
use mem_order.Merge.Queue.{LogQueue, merge_loop}
use mem_order.Merge.Pending.{Waits}
use mem_order.Merge.Pop.{
  after_pop, IsMerging, pop_none-queue, after_pop-IsMerging, after_pop-Waits, Waits-after_pop,
  Waits-KeyLe,
}

abbrev pub SortedEnts : List QueEnt → Type 0
SortedEnts [] = Unit
SortedEnts (e ∷ es) = ((x : QueEnt) → Memᴰ x es → KeyLe e.wop x.wop) × SortedEnts es

-- `write_entry` for each of the entries.
unfoldable pub write_all : List QueEnt → MergeFiles → Option MergeFiles
write_all [] m = some m
write_all (e ∷ es) m = elim (write_entry e m) [ none ↦ none | some m' ↦ write_all es m' ]

module _ (lq : LogQueue) where
  unfoldable pub merge_order : ℕ → Waiting → List QueEnt
  merge_order zero p = []
  merge_order (suc n) p = elim (lq.pop p.queue) [
    | none ↦ []
    | some (e, rest) ↦ e ∷ merge_order n (after_pop lq p e rest)
  ]

  -- With enough fuel, the loop writes these entries.
  pub merge_loop-write_all :
      (n : ℕ) (p : Waiting) (m : MergeFiles) (nthr : ℕ)
      → IsMerging lq nthr n p
      → merge_loop lq n p m ≡ write_all (merge_order n p) m
  unfolding merge_loop merge_order write_all
  merge_loop-write_all zero p m nthr s = elim (Option-cases (lq.pop p.queue)) [
    | inl q ↦ rw (q, merge_loop, merge_order)
    | inr ((e, rest), q) ↦
        absurd (let h = lq.shorter p.queue rest e q in omega (arith, s.enough, h))
  ]
  merge_loop-write_all (suc n) p m nthr s = elim (Option-cases (lq.pop p.queue)) [
    | inl q ↦ rw (q, merge_loop, merge_order)
    | inr ((e, rest), q) ↦ elim (Option-cases (write_entry e m)) [
      | inl f ↦ rw (q, merge_loop, merge_order, write_all, f)
      | inr (m', f) ↦
          rw (q, merge_loop, merge_order, write_all, f)
            (merge_loop-write_all n (after_pop lq p e rest) m' nthr
              (after_pop-IsMerging lq nthr n p e rest s q))
    ]
  ]

  module _ (nthr : ℕ) where
    pub merge_order-Waits :
        (n : ℕ) (p : Waiting) (x : QueEnt)
        → IsMerging lq nthr n p
        → Memᴰ x (merge_order n p)
        → Waits x p
    unfolding merge_order
    merge_order-Waits zero p x m h = absurd (MemD.not-nil h)
    merge_order-Waits (suc n) p x m h = elim (Option-cases (lq.pop p.queue)) [
      | inl q ↦ absurd (MemD.not-nil (rw (q, merge_order) at h))
      | inr ((e, rest), q) ↦ elim (MemD.cases_cons (rw (q, merge_order) at h)) [
        | inl s ↦ inl (rw s (lq.taken p.queue rest e q))
        | inr h' ↦ after_pop-Waits lq nthr n p e rest m q x (
            merge_order-Waits n (after_pop lq p e rest) x
              (after_pop-IsMerging lq nthr n p e rest m q) h')
      ]
    ]

    none_left :
        (p : Waiting) (x : QueEnt) (n : ℕ) → IsMerging lq nthr n p → p.queue ≡ [] → ¬ (Waits x p)
    none_left p x n m e (inl h) = MemD.not-nil (rw e at h)
    none_left p x n m e (inr h) =
        let (y, i, j, k) = m.headed x.tid x.wop h in MemD.not-nil (rw e at i)

    pub Waits-merge_order :
        (n : ℕ) (p : Waiting) (x : QueEnt)
        → IsMerging lq nthr n p
        → Waits x p
        → Memᴰ x (merge_order n p)
    unfolding merge_order
    Waits-merge_order zero p x m h = absurd (none_left p x zero m (ground arith) h)
    Waits-merge_order (suc n) p x m h = elim (Option-cases (lq.pop p.queue)) [
      | inl q ↦ absurd (none_left p x (suc n) m (pop_none-queue lq p.queue q) h)
      | inr ((e, rest), q) ↦
          rw (q, merge_order)
            (elim (Waits-after_pop lq nthr n p e rest m q x h) [
              | inl s ↦ Memᴰ.head s
              | inr h' ↦ Memᴰ.tail (
                  Waits-merge_order n (after_pop lq p e rest) x
                    (after_pop-IsMerging lq nthr n p e rest m q) h')
            ])
    ]

    pub merge_order-SortedEnts :
        (n : ℕ) (p : Waiting) → IsMerging lq nthr n p → SortedEnts (merge_order n p)
    unfolding merge_order
    merge_order-SortedEnts zero p m = tt
    merge_order-SortedEnts (suc n) p m = elim (Option-cases (lq.pop p.queue)) [
      | inl q ↦ rw (q, merge_order) tt
      | inr ((e, rest), q) ↦
          let next = after_pop-IsMerging lq nthr n p e rest m q in
          rw (q, merge_order)
            (
              λ x h. Waits-KeyLe lq nthr n p e rest m q x (
                  after_pop-Waits lq nthr n p e rest m q x
                    (merge_order-Waits n (after_pop lq p e rest) x next h)),
              merge_order-SortedEnts n (after_pop lq p e rest) next,
            )
    ]
