-- ===== src/Commit/Queue.antt =====
-- merge-commit.cpp: how often a thread stands in the queue, and what an arrangement leaves of that.
use mathlib.Core.List.{Memᴰ, Permᴰ}
use mathlib.Core.List.Memᴰ as MemD
use mem_order.Base.{
  ℕ, suc, ◌≤◌, ◌==◌, ◌≡◌, false, List, [], ◌∷◌, inl, inr, if◌then◌else◌, arith, refl, sym, ◌∙◌,
  Bool-cases,
}
use mem_order.Commit.Merge.{QEnt}

-- The entries of thread `t`.
unfoldable pub count : ℕ → List QEnt → ℕ
count t [] = 0
count t (x ∷ q) = let rest = count t q in if x.tid == t then suc rest else rest

pub count-cons_same : (x : QEnt) (q : List QEnt) → count x.tid (x ∷ q) ≡ suc (count x.tid q)
unfolding count
count-cons_same x q = ground arith

pub count-cons_other :
    (t : ℕ) (x : QEnt) (q : List QEnt) → (x.tid == t) ≡ false → count t (x ∷ q) ≡ count t q
unfolding count
count-cons_other t x q e = rw e refl

pub mem-count : (x : QEnt) (q : List QEnt) → Memᴰ x q → 1 ≤ count x.tid q
unfolding count
mem-count x [] m = absurd (MemD.not-nil m)
mem-count x (y ∷ q) m = elim (MemD.cases_cons m) [
  | inl e ↦ rw e (ground arith)
  | inr h ↦ elim (Bool-cases (y.tid == x.tid)) [
    | inl own ↦ rw own (omega arith)
    | inr other ↦ rw other (mem-count x q h)
  ]
]

pub count-mem : (t : ℕ) (q : List QEnt) → 1 ≤ count t q → (x : QEnt) × Memᴰ x q × (x.tid ≡ t)
unfolding count
count-mem t [] le = absurd (omega arith)
count-mem t (y ∷ q) le = elim (Bool-cases (y.tid == t)) [
  | inl own ↦ (y, Memᴰ.head refl, ground arith)
  | inr other ↦ let (x, m, e) = count-mem t q (rw other at le) in (x, Memᴰ.tail m, e)
]

pub Perm-count : (t : ℕ) {q r : List QEnt} → Permᴰ q r → count t q ≡ count t r
unfolding count
Perm-count t Permᴰ.nil = refl
Perm-count t (Permᴰ.cons e d) = rw (e, Perm-count t d) refl
Perm-count t (Permᴰ.swap {a} {b} e f) = rw (sym e, sym f) (ground arith)
Perm-count t (Permᴰ.trans c d) = Perm-count t c ∙ Perm-count t d

pub Perm-mem : (x : QEnt) {q r : List QEnt} → Permᴰ q r → Memᴰ x q → Memᴰ x r
Perm-mem x Permᴰ.nil m = m
Perm-mem x (Permᴰ.cons e d) m = elim (MemD.cases_cons m) [
  | inl p ↦ Memᴰ.head (p ∙ e)
  | inr h ↦ Memᴰ.tail (Perm-mem x d h)
]
Perm-mem x (Permᴰ.swap e f) m = elim (MemD.cases_cons m) [
  | inl p ↦ Memᴰ.tail (Memᴰ.head (p ∙ e))
  | inr h ↦ elim (MemD.cases_cons h) [ inl p ↦ Memᴰ.head (p ∙ f) | inr k ↦ Memᴰ.tail (Memᴰ.tail k) ]
]
Perm-mem x (Permᴰ.trans c d) m = Perm-mem x d (Perm-mem x c m)
