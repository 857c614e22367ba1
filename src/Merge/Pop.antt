-- ===== src/Merge/Pop.antt =====
-- merge-memop.cpp: one round of the loop, the queue's least entry taken out.
use mathlib.Core.List.{Memᴰ}
use mem_order.Base.{
  ℕ, suc, ◌<◌, ◌≤◌, ◌≡◌, ◌≢◌, List, [], ◌∷◌, arith, refl, sym, ap, ◌∙◌, inl, inr, ◌⊎◌, ℕ_discrete,
  subst, false, none, some,
}
use mem_order.Reorder.{SortedMemop}
use mem_order.Reorder.Sorted.{KeyLe}
use mem_order.Merge.{QueEnt, gt, Waiting, enqueue_next_waitmemop}
use mem_order.Merge.Queue.{LogQueue}
use mem_order.Merge.Pending.{
  Waits, HeadedAt, IsReady, remaining, enqueue_next-Waits, Waits-enqueue_next,
  enqueue_next-HeadedAt, enqueue_next-HeadedAt_other, enqueue_next-IsReady, remaining-enqueue_next,
}

gt-KeyLe : (a b : QueEnt) → gt a b ≡ false → KeyLe a.wop b.wop
gt-KeyLe a b h = elim (ℕ_discrete a.wop.objid b.wop.objid) [
  | yes e ↦ inr (e, ground arith)
  | no e ↦ inl (ground arith)
]

KeyLe-trans : (a b c : SortedMemop) → KeyLe a b → KeyLe b c → KeyLe a c
KeyLe-trans a b c (inl p) (inl q) = inl (omega arith)
KeyLe-trans a b c (inl p) (inr q) = inl (omega arith)
KeyLe-trans a b c (inr p) (inl q) = inl (omega arith)
KeyLe-trans a b c (inr p) (inr q) = inr (omega arith, omega arith)

module _ (lq : LogQueue) where
  -- What is left once the entry `e` is out and its thread's next entry is in.
  abbrev pub after_pop : Waiting → QueEnt → List QueEnt → Waiting
  after_pop p e rest = enqueue_next_waitmemop e.tid (record p { queue = rest })

  -- The loop's state: each log's rest is behind an entry in the queue.
  pub record IsMerging (nthr n : ℕ) (p : Waiting) : Type 0 where
    pub ready : IsReady nthr p
    pub headed : (t : ℕ) → HeadedAt p t
    pub enough : remaining nthr p ≤ n

  pub pop_none-queue : (q : List QueEnt) → lq.pop q ≡ none → q ≡ []
  pop_none-queue [] h = refl
  pop_none-queue (e ∷ q) h = absurd (let (x, rest, s) = lq.pop_some e q in cc)

  module _ (nthr n : ℕ) (p : Waiting) (e : QueEnt) (rest : List QueEnt)
      (m : IsMerging nthr (suc n) p) (popped : lq.pop p.queue ≡ some (e, rest)) where
    abbrev without : Waiting
    without = record p { queue = rest }

    without-IsReady : IsReady nthr without
    without-IsReady = record {
      tids = λ x h. m.ready.tids x (lq.kept p.queue rest e x popped h);
      beyond = m.ready.beyond;
      sorted = m.ready.sorted;
    }

    e-lt : e.tid < nthr
    e-lt = m.ready.tids e (lq.taken p.queue rest e popped)

    without-HeadedAt : (t : ℕ) → e.tid ≢ t → HeadedAt without t
    without-HeadedAt t ne w h =
        let (x, i, j, k) = m.headed t w h in
        elim (lq.split p.queue rest e x popped i) [
          | inl q ↦ absurd (ne (ap (λ (y : QueEnt). y.tid) (sym q) ∙ j))
          | inr h' ↦ (x, h', j, k)
        ]

    pub after_pop-IsMerging : IsMerging nthr n (after_pop p e rest)
    after_pop-IsMerging = record {
      ready = enqueue_next-IsReady e.tid without nthr e-lt without-IsReady;
      headed = λ t. elim (ℕ_discrete e.tid t) [
        | yes q ↦
            subst (λ u. HeadedAt (after_pop p e rest) u) q
              (enqueue_next-HeadedAt e.tid without (m.ready.sorted e.tid))
        | no q ↦ enqueue_next-HeadedAt_other e.tid without t q (without-HeadedAt t q)
      ];
      enough = omega (
        arith,
        remaining-enqueue_next e.tid without nthr e-lt without-IsReady,
        lq.shorter p.queue rest e popped,
        m.enough,
      );
    }

    pub after_pop-Waits : (x : QueEnt) → Waits x (after_pop p e rest) → Waits x p
    after_pop-Waits x h = elim (enqueue_next-Waits e.tid without x h) [
      | inl q ↦ inl (lq.kept p.queue rest e x popped q)
      | inr w ↦ inr w
    ]

    pub Waits-after_pop : (x : QueEnt) → Waits x p → (x ≡ e) ⊎ Waits x (after_pop p e rest)
    Waits-after_pop x (inl h) = elim (lq.split p.queue rest e x popped h) [
      | inl q ↦ inl q
      | inr h' ↦ inr (Waits-enqueue_next e.tid without x (inl h'))
    ]
    Waits-after_pop x (inr h) = inr (Waits-enqueue_next e.tid without x (inr h))

    queued-KeyLe : (x : QueEnt) → Memᴰ x p.queue → KeyLe e.wop x.wop
    queued-KeyLe x h = elim (lq.split p.queue rest e x popped h) [
      | inl q ↦ inr (
        ap (λ (y : QueEnt). y.wop.objid) (sym q),
        omega (arith, ap (λ (y : QueEnt). y.wop.version) q),
      )
      | inr h' ↦ gt-KeyLe e x (lq.least p.queue rest e x popped h')
    ]

    -- The entry that is out is before all that wait.
    pub Waits-KeyLe : (x : QueEnt) → Waits x p → KeyLe e.wop x.wop
    Waits-KeyLe x (inl h) = queued-KeyLe x h
    Waits-KeyLe x (inr h) =
        let (y, i, j, k) = m.headed x.tid x.wop h in
        KeyLe-trans e.wop y.wop x.wop (queued-KeyLe y i) k
