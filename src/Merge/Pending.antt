-- ===== src/Merge/Pending.antt =====
-- merge-memop.cpp: the entries that wait in the queue and in the logs.
use mathlib.Core.List.{Memᴰ}
use mathlib.Core.List.Memᴰ as MemD
use mem_order.Base.{
  ℕ, zero, suc, ◌+◌, ◌<◌, ◌≤◌, ◌≡◌, ◌≢◌, List, [], ◌∷◌, length, update, update_self, update_ne,
  arith, refl, sym, ap, ◌∙◌, inl, inr, ◌⊎◌, ℕ_discrete,
}
use mem_order.Reorder.{SortedMemop}
use mem_order.Reorder.Sorted.{KeyLe, Sorted}
use mem_order.Merge.{QueEnt, Waiting, enqueue_first, enqueue_next_waitmemop, entry_count}

abbrev pub Waits : QueEnt → Waiting → Type 0
Waits x p = Memᴰ x p.queue ⊎ Memᴰ x.wop (p.logs x.tid)

-- The queue holds an entry of thread `t` that is not after the rest of its log.
abbrev pub HeadedAt : Waiting → ℕ → Type 0
HeadedAt p t =
    (w : SortedMemop)
    → Memᴰ w (p.logs t)
    → (e : QueEnt) × Memᴰ e p.queue × (e.tid ≡ t) × KeyLe e.wop w

pub record IsReady (nthr : ℕ) (p : Waiting) : Type 0 where
  pub tids : (e : QueEnt) → Memᴰ e p.queue → e.tid < nthr
  pub beyond : (t : ℕ) → nthr ≤ t → p.logs t ≡ []
  pub sorted : (t : ℕ) → Sorted (p.logs t)

abbrev pub remaining : ℕ → Waiting → ℕ
remaining nthr p = length p.queue + entry_count nthr p.logs

entry_count-update_ge :
    (n t : ℕ) (logs : ℕ → List SortedMemop) (ws : List SortedMemop)
    → n ≤ t
    → entry_count n (update logs t ws) ≡ entry_count n logs
unfolding entry_count
entry_count-update_ge zero t logs ws le = refl
entry_count-update_ge (suc n) t logs ws le =
    let e : update logs t ws n ≡ logs n = update_ne logs t n ws (λ q. absurd (omega arith)) in
    omega (arith, ap length e, entry_count-update_ge n t logs ws (omega arith))

entry_count-update :
    (n t : ℕ) (logs : ℕ → List SortedMemop) (w : SortedMemop) (ws : List SortedMemop)
    → t < n
    → logs t ≡ w ∷ ws
    → entry_count n (update logs t ws) + 1 ≡ entry_count n logs
unfolding entry_count
entry_count-update zero t logs w ws lt h = absurd (omega arith)
entry_count-update (suc n) t logs w ws lt h = elim (ℕ_discrete t n) [
  | yes e ↦
      let own : update logs t ws n ≡ ws = ap (update logs t ws) (sym e) ∙ update_self logs t ws in
      let was : logs n ≡ w ∷ ws = ap logs (sym e) ∙ h in
      omega
        (arith, ap length own, ap length was, entry_count-update_ge n t logs ws (omega (arith, e)))
  | no e ↦
      let other : update logs t ws n ≡ logs n = update_ne logs t n ws e in
      omega (arith, ap length other, entry_count-update n t logs w ws (omega (arith, e)) h)
]

module _ (t : ℕ) (p : Waiting) where
  -- Both cases of the thread's log at once.
  by_log :
      (P : Waiting → Type 0)
      → ((p.logs t ≡ []) → P p)
      → ((w : SortedMemop) (ws : List SortedMemop)
          → p.logs t ≡ w ∷ ws
          → P (enqueue_first t (w ∷ ws) p))
      → P (enqueue_next_waitmemop t p)
  unfolding enqueue_next_waitmemop
  by_log P f g = go (p.logs t) refl
    where
      go : (l : List SortedMemop) → p.logs t ≡ l → P (enqueue_first t l p)
      go [] e = f e
      go (w ∷ ws) e = g w ws e

  -- Every entry waits as before.
  pub enqueue_next-Waits : (x : QueEnt) → Waits x (enqueue_next_waitmemop t p) → Waits x p
  enqueue_next-Waits x = by_log (λ q. Waits x q → Waits x p) (λ _ h. h) taken
    where
      taken :
          (w : SortedMemop) (ws : List SortedMemop)
          → p.logs t ≡ w ∷ ws
          → Waits x (enqueue_first t (w ∷ ws) p)
          → Waits x p
      taken w ws e (inl h) = elim (MemD.cases_cons h) [
        | inl q ↦ inr (rw (q, e) (Memᴰ.head refl))
        | inr m ↦ inl m
      ]
      taken w ws e (inr h) = elim (ℕ_discrete t x.tid) [
        | yes q ↦ inr (rw (← q, e) (Memᴰ.tail (rw (← q, update_self p.logs t ws) at h)))
        | no q ↦ inr (rw (update_ne p.logs t x.tid ws q) at h)
      ]

  pub Waits-enqueue_next : (x : QueEnt) → Waits x p → Waits x (enqueue_next_waitmemop t p)
  Waits-enqueue_next x h = by_log (λ q. Waits x q) (λ _. h) (λ w ws e. put w ws e h)
    where
      put :
          (w : SortedMemop) (ws : List SortedMemop)
          → p.logs t ≡ w ∷ ws
          → Waits x p
          → Waits x (enqueue_first t (w ∷ ws) p)
      put w ws e (inl m) = inl (Memᴰ.tail m)
      put w ws e (inr m) = elim (ℕ_discrete t x.tid) [
        | yes q ↦ elim (MemD.cases_cons (rw (← q, e) at m)) [
          | inl s ↦ inl (Memᴰ.head (ground arith))
          | inr r ↦ inr (rw (← q, update_self p.logs t ws) r)
        ]
        | no q ↦ inr (rw (update_ne p.logs t x.tid ws q) m)
      ]

  pub enqueue_next-HeadedAt : Sorted (p.logs t) → HeadedAt (enqueue_next_waitmemop t p) t
  enqueue_next-HeadedAt sorted =
      by_log (λ q. HeadedAt q t) (λ e w m. absurd (MemD.not-nil (rw e at m)))
        (λ w ws e v m. (
          record { tid = t; wop = w },
          Memᴰ.head refl,
          refl,
          (rw e at sorted).0 v (rw (update_self p.logs t ws) at m),
        ))

  pub enqueue_next-HeadedAt_other :
      (u : ℕ) → t ≢ u → HeadedAt p u → HeadedAt (enqueue_next_waitmemop t p) u
  enqueue_next-HeadedAt_other u ne h =
      by_log (λ q. HeadedAt q u) (λ _. h)
        (λ w ws e v m.
          let (x, i, j, k) = h v (rw (update_ne p.logs t u ws ne) at m) in (x, Memᴰ.tail i, j, k))

  module _ (nthr : ℕ) (lt : t < nthr) (r : IsReady nthr p) where
    pub enqueue_next-IsReady : IsReady nthr (enqueue_next_waitmemop t p)
    enqueue_next-IsReady =
        by_log (λ q. IsReady nthr q) (λ _. r)
          (λ w ws e. record {
            tids = λ x m. elim (MemD.cases_cons m) [ inl q ↦ rw q lt | inr h ↦ r.tids x h ];
            beyond = λ u le. update_ne p.logs t u ws (λ q. absurd (omega arith)) ∙ r.beyond u le;
            sorted = λ u. elim (ℕ_discrete t u) [
              | yes q ↦ rw (← q, update_self p.logs t ws) ((rw e at (r.sorted t)).1)
              | no q ↦ rw (update_ne p.logs t u ws q) (r.sorted u)
            ];
          })

    pub remaining-enqueue_next : remaining nthr (enqueue_next_waitmemop t p) ≡ remaining nthr p
    remaining-enqueue_next =
        by_log (λ q. remaining nthr q ≡ remaining nthr p) (λ _. refl)
          (λ w ws e. omega (arith, entry_count-update nthr t p.logs w ws lt e))
