-- ===== src/Merge/Start.antt =====
-- merge-memop.cpp: the queue is filled with each log's first entry.
use mathlib.Core.List.{Memᴰ}
use mathlib.Core.List.Memᴰ as MemD
use mem_order.Base.{
  ℕ, zero, suc, ◌+◌, ◌<◌, ◌≤◌, ◌≡◌, List, [], arith, ◌∙◌, inl, inr, ℕ_discrete, subst, dec_lt,
}
use mem_order.Reorder.{SortedMemop}
use mem_order.Reorder.Sorted.{Sorted}
use mem_order.Merge.{QueEnt, Waiting, enqueue_next_waitmemop, entry_count, enqueue_from}
use mem_order.Merge.Queue.{LogQueue}
use mem_order.Merge.Pending.{
  Waits, HeadedAt, IsReady, remaining, enqueue_next-Waits, Waits-enqueue_next,
  enqueue_next-HeadedAt, enqueue_next-HeadedAt_other, enqueue_next-IsReady, remaining-enqueue_next,
}
use mem_order.Merge.Pop.{IsMerging}

-- The loop has passed the threads below `i`.
record IsFilled (nthr i count : ℕ) (logs : ℕ → List SortedMemop) (p : Waiting) : Type 0 where
  ready : IsReady nthr p
  headed : (t : ℕ) → t < i → HeadedAt p t
  counted : remaining nthr p ≡ count
  same : (x : QueEnt) → Waits x p → Memᴰ x.wop (logs x.tid)
  all : (x : QueEnt) → Memᴰ x.wop (logs x.tid) → Waits x p

enqueue_from-IsFilled :
    (nthr i n count : ℕ) (logs : ℕ → List SortedMemop) (p : Waiting)
    → i + n ≡ nthr
    → IsFilled nthr i count logs p
    → IsFilled nthr nthr count logs (enqueue_from i n p)
unfolding enqueue_from
enqueue_from-IsFilled nthr i zero count logs p e f =
    subst (λ k. IsFilled nthr k count logs p) (omega (arith, e)) f
enqueue_from-IsFilled nthr i (suc n) count logs p e f =
    enqueue_from-IsFilled nthr (suc i) n count logs (enqueue_next_waitmemop i p) (omega (arith, e))
      (record {
        ready = enqueue_next-IsReady i p nthr (omega (arith, e)) f.ready;
        headed = λ t lt. elim (ℕ_discrete i t) [
          | yes q ↦
              subst (λ u. HeadedAt (enqueue_next_waitmemop i p) u) q
                (enqueue_next-HeadedAt i p (f.ready.sorted i))
          | no q ↦ enqueue_next-HeadedAt_other i p t q (f.headed t (omega (arith, q)))
        ];
        counted = remaining-enqueue_next i p nthr (omega (arith, e)) f.ready ∙ f.counted;
        same = λ x w. f.same x (enqueue_next-Waits i p x w);
        all = λ x m. Waits-enqueue_next i p x (f.all x m);
      })

module _ (lq : LogQueue) (nthr : ℕ) (logs : ℕ → List SortedMemop)
    (beyond : (t : ℕ) → nthr ≤ t → logs t ≡ []) (sorted : (t : ℕ) → Sorted (logs t)) where
  abbrev pub filled : Waiting
  filled = enqueue_from 0 nthr (record { queue = []; logs = logs })

  filled-IsFilled : IsFilled nthr nthr (entry_count nthr logs) logs filled
  filled-IsFilled =
      enqueue_from-IsFilled nthr 0 nthr (entry_count nthr logs) logs
        (record { queue = []; logs = logs }) (omega arith)
        (record {
          ready = record {
            tids = λ e m. absurd (MemD.not-nil m);
            beyond = beyond;
            sorted = sorted;
          };
          headed = λ t lt. absurd (omega arith);
          counted = omega arith;
          same = λ x w. elim w [ inl m ↦ absurd (MemD.not-nil m) | inr m ↦ m ];
          all = λ x m. inr m;
        })

  pub filled-IsMerging : IsMerging lq nthr (entry_count nthr logs) filled
  filled-IsMerging = record {
    ready = filled-IsFilled.ready;
    headed = λ t w m. elim (dec_lt t nthr) [
      | yes lt ↦ filled-IsFilled.headed t lt w m
      | no ge ↦ absurd (MemD.not-nil (rw (filled-IsFilled.ready.beyond t (omega (arith, ge))) at m))
    ];
    enough = omega (arith, filled-IsFilled.counted);
  }

  pub filled-Waits : (x : QueEnt) → Waits x filled → Memᴰ x.wop (logs x.tid)
  filled-Waits x w = filled-IsFilled.same x w

  pub Waits-filled : (x : QueEnt) → Memᴰ x.wop (logs x.tid) → Waits x filled
  Waits-filled x m = filled-IsFilled.all x m
