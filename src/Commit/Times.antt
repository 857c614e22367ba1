-- ===== src/Commit/Times.antt =====
-- merge-commit.cpp: the commit times of each thread, out of the commits of all.
use mathlib.Core.List.{Memᴰ}
use mem_order.Base.{
  ℕ, zero, suc, ◌≤◌, ◌<◌, ◌==◌, ◌≡◌, ◌⊎◌, inl, inr, false, List, [], ◌∷◌, length, if◌then◌else◌,
  arith, refl, ap, subst, Bool-cases,
}
use mem_order.Commit.Merge.{QEnt, commit_count}

-- The times of the commits of thread `t`.
unfoldable pub times : ℕ → List QEnt → List ℕ
times t [] = []
times t (e ∷ order) = let rest = times t order in if e.tid == t then e.ts ∷ rest else rest

-- Every commit has a later time than those before it.
unfoldable pub Increasing : List QEnt → Type 0
Increasing [] = Unit
Increasing (e ∷ order) = ((x : QEnt) → Memᴰ x order → e.ts < x.ts) × Increasing order

pub times-own : (e : QEnt) (order : List QEnt) → times e.tid (e ∷ order) ≡ e.ts ∷ times e.tid order
unfolding times
times-own e order = ground arith

pub times-other :
    (t : ℕ) (e : QEnt) (order : List QEnt)
    → (e.tid == t) ≡ false
    → times t (e ∷ order) ≡ times t order
unfolding times
times-other t e order q = rw q refl

-- A thread's first time is that of one of the commits.
pub times-mem :
    (t : ℕ) (order : List QEnt) (s : ℕ) (l : List ℕ)
    → times t order ≡ s ∷ l
    → Memᴰ (record { tid = t; ts = s }) order
unfolding times
times-mem t [] s l q = absurd cc
times-mem t (e ∷ order) s l q = elim (Bool-cases (e.tid == t)) [
  | inl own ↦
      let q' : e.ts ∷ times t order ≡ s ∷ l = rw own at q in
      let same : e.tid ≡ t = ground arith in Memᴰ.head (ground arith)
  | inr other ↦ Memᴰ.tail (times-mem t order s l (rw other at q))
]

-- The commits are of threads below `nthr`.
abbrev pub Threads : ℕ → List QEnt → Type 0
Threads nthr order = (e : QEnt) → Memᴰ e order → e.tid < nthr

pub times-none :
    (nthr t : ℕ) (order : List QEnt) → Threads nthr order → nthr ≤ t → times t order ≡ []
unfolding times
times-none nthr t [] below le = refl
times-none nthr t (e ∷ order) below le =
    let lt = below e (Memᴰ.head refl) in
    let other : (e.tid == t) ≡ false = ground arith in
    rw other (times-none nthr t order (λ x m. below x (Memᴰ.tail m)) le)

commit_count-cons :
    (n : ℕ) (e : QEnt) (order : List QEnt)
    → ((n ≤ e.tid)
        × (commit_count n (λ t. times t (e ∷ order)) ≡ commit_count n (λ t. times t order)))
      ⊎ ((e.tid < n)
          × (commit_count n (λ t. times t (e ∷ order)) ≡ suc (commit_count n (λ t. times t order))))
unfolding commit_count
commit_count-cons zero e order = inl (omega arith, refl)
commit_count-cons (suc n) e order = elim (Bool-cases (e.tid == n)) [
  | inl own ↦
      let same : e.tid ≡ n = ground arith in
      let here : length (times n (e ∷ order)) ≡ suc (length (times n order)) =
        subst (λ t. length (times t (e ∷ order)) ≡ suc (length (times t order))) same
          (ap length (times-own e order)) in
      elim (commit_count-cons n e order) [
        | inl (le, k) ↦ inr (omega (arith, same), omega (arith, here, k))
        | inr (lt, k) ↦ absurd (omega (arith, same, lt))
      ]
  | inr other ↦
      let here : length (times n (e ∷ order)) ≡ length (times n order) =
        ap length (times-other n e order other) in
      elim (commit_count-cons n e order) [
        | inl (le, k) ↦ inl (ground arith, omega (arith, here, k))
        | inr (lt, k) ↦ inr (omega (arith, lt), omega (arith, here, k))
      ]
]

pub commit_count-length :
    (nthr : ℕ) (order : List QEnt)
    → Threads nthr order
    → length order ≤ commit_count nthr (λ t. times t order)
commit_count-length nthr [] below = omega arith
commit_count-length nthr (e ∷ order) below =
    let rest = commit_count-length nthr order (λ x m. below x (Memᴰ.tail m)) in
    elim (commit_count-cons nthr e order) [
      | inl (le, k) ↦ absurd (omega (arith, le, below e (Memᴰ.head refl)))
      | inr (lt, k) ↦ omega (arith, rest, k)
    ]
