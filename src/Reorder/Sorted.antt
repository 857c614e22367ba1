-- ===== src/Reorder/Sorted.antt =====
-- reorder-memop.cpp: the new log is sorted, and holds the reads of the old one.
use mathlib.Core.List.{Memᴰ}
use mathlib.Core.List.Memᴰ as MemD
use mem_order.Base.{
  ℕ, zero, suc, ◌+◌, ◌<◌, ◌≤◌, ◌==◌, ◌≡◌, List, [], ◌∷◌, ◌++◌, arith, refl, sym, ◌∙◌, Bool-cases,
  inl, inr, ◌⊎◌, subst, true, ℕ_discrete,
}
use mem_order.Reorder.{SortedMemop, write_out_memop_log}
use mem_order.Reorder.Load.{of_object}
use mem_order.Reorder.Rising.{Rises}

-- By object, and then by version.
abbrev pub KeyLe : SortedMemop → SortedMemop → Type 0
KeyLe a b = (a.objid < b.objid) ⊎ ((a.objid ≡ b.objid) × (a.version ≤ b.version))

abbrev pub Sorted : List SortedMemop → Type 0
Sorted [] = Unit
Sorted (w ∷ ws) = ((x : SortedMemop) → Memᴰ x ws → KeyLe w x) × Sorted ws

pub of_object-mem :
    (o : ℕ) (ws : List SortedMemop) {x : SortedMemop}
    → Memᴰ x (of_object o ws)
    → Memᴰ x ws × (x.objid ≡ o)
unfolding of_object
of_object-mem o [] m = absurd (MemD.not-nil m)
of_object-mem o (w ∷ ws) {x} m = elim (Bool-cases (w.objid == o)) [
  | inl e ↦ elim (MemD.cases_cons (rw e at m)) [
    | inl q ↦ (Memᴰ.head q, rw q (ground arith))
    | inr h ↦ let (a, b) = of_object-mem o ws h in (Memᴰ.tail a, b)
  ]
  | inr e ↦ let (a, b) = of_object-mem o ws (rw e at m) in (Memᴰ.tail a, b)
]

pub mem-of_object :
    (ws : List SortedMemop) {x : SortedMemop} → Memᴰ x ws → Memᴰ x (of_object x.objid ws)
unfolding of_object
mem-of_object [] m = absurd (MemD.not-nil m)
mem-of_object (w ∷ ws) {x} m = elim (MemD.cases_cons m) [
  | inl q ↦ let t : (w.objid == x.objid) ≡ true = ground arith in rw t (Memᴰ.head q)
  | inr h ↦ elim (Bool-cases (w.objid == x.objid)) [
    | inl t ↦ rw t (Memᴰ.tail (mem-of_object ws h))
    | inr f ↦ rw f (mem-of_object ws h)
  ]
]

pub of_object-Rises : (o : ℕ) (ws : List SortedMemop) → Rises ws → Rises (of_object o ws)
unfolding of_object
of_object-Rises o [] h = tt
of_object-Rises o (w ∷ ws) h = elim (Bool-cases (w.objid == o)) [
  | inl t ↦ rw t (λ x m q. h.0 x (of_object-mem o ws m).0 q, of_object-Rises o ws h.1)
  | inr f ↦ rw f (of_object-Rises o ws h.1)
]

-- The entries of one object before those of larger ones.
Sorted-append :
    (i : ℕ) (ws vs : List SortedMemop)
    → Rises ws
    → ((x : SortedMemop) → Memᴰ x ws → x.objid ≡ i)
    → Sorted vs
    → ((x : SortedMemop) → Memᴰ x vs → i < x.objid)
    → Sorted (ws ++ vs)
Sorted-append i [] vs r at s above = s
Sorted-append i (w ∷ ws) vs r at s above = (
  λ x m. elim (MemD.append_cases ws m) [
    | inl h ↦
        let q : x.objid ≡ w.objid = at x (Memᴰ.tail h) ∙ sym (at w (Memᴰ.head refl)) in
        inr (sym q, r.0 x h q)
    | inr h ↦ inl (omega (arith, above x h, at w (Memᴰ.head refl)))
  ],
  Sorted-append i ws vs r.1 (λ x m. at x (Memᴰ.tail m)) s above,
)

-- Each object's list holds its own entries, in rising order.
pub record Grouped (all : ℕ → List SortedMemop) : Type 0 where
  pub own : (o : ℕ) (x : SortedMemop) → Memᴰ x (all o) → x.objid ≡ o
  pub rises : (o : ℕ) → Rises (all o)

module _ (all : ℕ → List SortedMemop) (g : Grouped all) where
  pub write_out_memop_log-mem :
      (i n : ℕ) {x : SortedMemop}
      → Memᴰ x (write_out_memop_log i n all)
      → (i ≤ x.objid) × Memᴰ x (all x.objid)
  unfolding write_out_memop_log
  write_out_memop_log-mem i zero m = absurd (MemD.not-nil m)
  write_out_memop_log-mem i (suc n) {x} m = elim (MemD.append_cases (all i) m) [
    | inl h ↦ let q = g.own i x h in (omega (arith, q), subst (λ o. Memᴰ x (all o)) (sym q) h)
    | inr h ↦ let (lo, k) = write_out_memop_log-mem (suc i) n h in (omega (arith, lo), k)
  ]

  pub mem-write_out_memop_log :
      (i n : ℕ) {x : SortedMemop}
      → i ≤ x.objid
      → x.objid < i + n
      → Memᴰ x (all x.objid)
      → Memᴰ x (write_out_memop_log i n all)
  unfolding write_out_memop_log
  mem-write_out_memop_log i zero lo hi m = absurd (omega arith)
  mem-write_out_memop_log i (suc n) {x} lo hi m = elim (ℕ_discrete i x.objid) [
    | yes e ↦
        MemD.append_left (write_out_memop_log (suc i) n all) (subst (λ o. Memᴰ x (all o)) (sym e) m)
    | no e ↦
        MemD.append_right (all i)
          (mem-write_out_memop_log (suc i) n (omega (arith, e)) (omega arith) m)
  ]

  pub write_out_memop_log-Sorted : (i n : ℕ) → Sorted (write_out_memop_log i n all)
  unfolding write_out_memop_log
  write_out_memop_log-Sorted i zero = tt
  write_out_memop_log-Sorted i (suc n) =
      Sorted-append i (all i) (write_out_memop_log (suc i) n all) (g.rises i) (g.own i)
        (write_out_memop_log-Sorted (suc i) n) (λ x m. (write_out_memop_log-mem (suc i) n m).0)
