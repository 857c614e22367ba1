-- ===== src/Merge/Slices.antt =====
-- merge-memop.cpp: the entries of one object among the sorted ones.
use mathlib.Core.List.{Memᴰ}
use mathlib.Core.List.Memᴰ as MemD
use mem_order.Base.{
  ℕ, zero, suc, ◌≤◌, ◌==◌, ◌≡◌, List, [], ◌∷◌, map, arith, refl, some, get_elem?, get_elem?-mem,
  inl, inr, Bool-cases, true,
}
use mem_order.Mem.{ReplayWaitMemop}
use mem_order.Merge.{QueEnt}
use mem_order.Merge.Order.{SortedEnts}
use mem_order.Merge.Count.{strip, ents_of}

pub ents_of-mem :
    (o : ℕ) (es : List QueEnt) {x : QueEnt} → Memᴰ x (ents_of o es) → Memᴰ x es × (x.wop.objid ≡ o)
unfolding ents_of
ents_of-mem o [] m = absurd (MemD.not-nil m)
ents_of-mem o (e ∷ es) {x} m = elim (Bool-cases (e.wop.objid == o)) [
  | inl t ↦ elim (MemD.cases_cons (rw (t, ents_of) at m)) [
    | inl q ↦ (Memᴰ.head q, rw q (ground arith))
    | inr h ↦ let (a, b) = ents_of-mem o es h in (Memᴰ.tail a, b)
  ]
  | inr t ↦ let (a, b) = ents_of-mem o es (rw (t, ents_of) at m) in (Memᴰ.tail a, b)
]

pub mem-ents_of : (es : List QueEnt) {x : QueEnt} → Memᴰ x es → Memᴰ x (ents_of x.wop.objid es)
unfolding ents_of
mem-ents_of [] m = absurd (MemD.not-nil m)
mem-ents_of (e ∷ es) {x} m = elim (MemD.cases_cons m) [
  | inl q ↦
      let t : (e.wop.objid == x.wop.objid) ≡ true = ground arith in rw (t, ents_of) (Memᴰ.head q)
  | inr h ↦ elim (Bool-cases (e.wop.objid == x.wop.objid)) [
    | inl t ↦ rw (t, ents_of) (Memᴰ.tail (mem-ents_of es h))
    | inr f ↦ rw (f, ents_of) (mem-ents_of es h)
  ]
]

pub ents_of-SortedEnts : (o : ℕ) (es : List QueEnt) → SortedEnts es → SortedEnts (ents_of o es)
unfolding ents_of
ents_of-SortedEnts o [] s = tt
ents_of-SortedEnts o (e ∷ es) s = elim (Bool-cases (e.wop.objid == o)) [
  | inl t ↦ rw (t, ents_of) (λ x m. s.0 x (ents_of-mem o es m).0, ents_of-SortedEnts o es s.1)
  | inr f ↦ rw (f, ents_of) (ents_of-SortedEnts o es s.1)
]

-- Entries of one object, sorted: their versions rise with their places.
pub versions-rise :
    (o : ℕ) (es : List QueEnt) (i j : ℕ) (e f : ReplayWaitMemop)
    → SortedEnts es
    → ((x : QueEnt) → Memᴰ x es → x.wop.objid ≡ o)
    → i ≤ j
    → get_elem? (map strip es) i ≡ some e
    → get_elem? (map strip es) j ≡ some f
    → e.version ≤ f.version
versions-rise o [] i j e f s own le p q = absurd cc
versions-rise o (x ∷ es) zero zero e f s own le p q = ground arith
versions-rise o (x ∷ es) zero (suc j) e f s own le p q =
    let (y, m, z) = MemD.of_map strip es (get_elem?-mem (map strip es) j q) in
    let a = own x (Memᴰ.head refl) in
    let b = own y (Memᴰ.tail m) in
    elim (s.0 y m) [ inl lt ↦ absurd (omega (arith, a, b)) | inr h ↦ let v = h.1 in ground arith ]
versions-rise o (x ∷ es) (suc i) zero e f s own le p q = absurd (omega arith)
versions-rise o (x ∷ es) (suc i) (suc j) e f s own le p q =
    versions-rise o es i j e f s.1 (λ y m. own y (Memᴰ.tail m)) (omega arith) p q
