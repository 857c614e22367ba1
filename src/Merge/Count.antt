-- ===== src/Merge/Count.antt =====
-- merge-memop.cpp: the numbers of entries that the index holds.
use mathlib.Core.List.{Memᴰ}
use mem_order.Base.{
  ℕ, suc, ◌+◌, ◌<◌, ◌≤◌, ◌==◌, ◌≡◌, ltb, if◌then◌else◌, List, [], ◌∷◌, ◌++◌, map, arith, refl, ap,
  ◌∙◌, length, take, drop, inl, inr, Bool-cases, sym, false, ◌≢◌,
}
use mem_order.Mem.{ReplayWaitMemop}
use mem_order.Merge.{QueEnt}
use mem_order.Merge.Order.{SortedEnts}

-- What the memop file holds of an entry.
abbrev pub strip : QueEnt → ReplayWaitMemop
strip e = record { version = e.wop.version; memop = e.wop.memop; tid = e.tid }

unfoldable pub count_of : ℕ → List QueEnt → ℕ
count_of o [] = 0
count_of o (e ∷ es) = let n = count_of o es in if e.wop.objid == o then suc n else n

unfoldable pub count_below : ℕ → List QueEnt → ℕ
count_below o [] = 0
count_below o (e ∷ es) = let n = count_below o es in if ltb e.wop.objid o then suc n else n

unfoldable pub ents_of : ℕ → List QueEnt → List QueEnt
ents_of o [] = []
ents_of o (e ∷ es) = let rest = ents_of o es in if e.wop.objid == o then e ∷ rest else rest

pub count_of-append :
    (o : ℕ) (es : List QueEnt) (e : QueEnt)
    → count_of o (es ++ (e ∷ [])) ≡ count_of o es + (if e.wop.objid == o then 1 else 0)
unfolding count_of
count_of-append o [] e = ground arith
count_of-append o (x ∷ es) e = ground (arith, count_of-append o es e)

pub count_below-append :
    (o : ℕ) (es : List QueEnt) (e : QueEnt)
    → count_below o (es ++ (e ∷ [])) ≡ count_below o es + (if ltb e.wop.objid o then 1 else 0)
unfolding count_below
count_below-append o [] e = ground arith
count_below-append o (x ∷ es) e = ground (arith, count_below-append o es e)

pub count_of-mem :
    (o : ℕ) (es : List QueEnt) → 0 < count_of o es → (x : QueEnt) × Memᴰ x es × (x.wop.objid ≡ o)
unfolding count_of
count_of-mem o [] lt = absurd (omega arith)
count_of-mem o (e ∷ es) lt = elim (Bool-cases (e.wop.objid == o)) [
  | inl t ↦ (e, Memᴰ.head refl, ground arith)
  | inr t ↦ let (x, m, q) = count_of-mem o es (rw t at lt) in (x, Memᴰ.tail m, q)
]

-- All objects are smaller than `o`.
abbrev pub AllBelow : ℕ → List QueEnt → Type 0
AllBelow o es = (x : QueEnt) → Memᴰ x es → x.wop.objid < o

pub count_of-AllBelow : (o : ℕ) (es : List QueEnt) → AllBelow o es → count_of o es ≡ 0
unfolding count_of
count_of-AllBelow o [] h = refl
count_of-AllBelow o (x ∷ es) h =
    let lt = h x (Memᴰ.head refl) in
    let ih = count_of-AllBelow o es (λ y m. h y (Memᴰ.tail m)) in ground arith

pub count_below-AllBelow : (o : ℕ) (es : List QueEnt) → AllBelow o es → count_below o es ≡ length es
unfolding count_below
count_below-AllBelow o [] h = refl
count_below-AllBelow o (x ∷ es) h =
    let lt = h x (Memᴰ.head refl) in
    let ih = count_below-AllBelow o es (λ y m. h y (Memᴰ.tail m)) in ground arith

-- All objects are at least `o`.
abbrev AllFrom : ℕ → List QueEnt → Type 0
AllFrom o es = (x : QueEnt) → Memᴰ x es → o ≤ x.wop.objid

count_below-AllFrom : (o : ℕ) (es : List QueEnt) → AllFrom o es → count_below o es ≡ 0
unfolding count_below
count_below-AllFrom o [] h = refl
count_below-AllFrom o (x ∷ es) h =
    let le = h x (Memᴰ.head refl) in
    let ih = count_below-AllFrom o es (λ y m. h y (Memᴰ.tail m)) in ground arith

after-AllFrom : (e : QueEnt) (es : List QueEnt) → SortedEnts (e ∷ es) → AllFrom e.wop.objid es
after-AllFrom e es s x m = elim (s.0 x m) [ inl lt ↦ omega arith | inr h ↦ omega (arith, h.0) ]

-- No entry is of `o`.
none_of :
    (o : ℕ) (es : List QueEnt)
    → ((x : QueEnt) → Memᴰ x es → x.wop.objid ≢ o)
    → (count_of o es ≡ 0) × (ents_of o es ≡ [])
unfolding count_of ents_of
none_of o [] h = (refl, refl)
none_of o (x ∷ es) h =
    let ne = h x (Memᴰ.head refl) in
    let ih = none_of o es (λ y m. h y (Memᴰ.tail m)) in (ground arith, ground arith)

-- In a sorted file, the entries of one object stand together, after those of smaller ones.
pub slice-ents_of :
    (o : ℕ) (es : List QueEnt)
    → SortedEnts es
    → take (count_of o es) (drop (count_below o es) (map strip es)) ≡ map strip (ents_of o es)
unfolding count_of count_below ents_of
slice-ents_of o [] s = refl
slice-ents_of o (e ∷ es) s = elim (Bool-cases (ltb e.wop.objid o)) [
  | inl lt ↦
      let ne : (e.wop.objid == o) ≡ false = ground arith in rw (lt, ne) (slice-ents_of o es s.1)
  | inr ge ↦ elim (Bool-cases (e.wop.objid == o)) [
    | inl own ↦
        let none_below =
          count_below-AllFrom o es (λ x m. let h = after-AllFrom e es s x m in ground arith) in
        let ih : take (count_of o es) (map strip es) ≡ map strip (ents_of o es) =
          ap (λ n. take (count_of o es) (drop n (map strip es))) (sym none_below)
          ∙ slice-ents_of o es s.1 in
        rw (ge, own, none_below) (ap (λ l. strip e ∷ l) ih)
    | inr other ↦
        let none =
          none_of o es (λ x m q. let h = after-AllFrom e es s x m in absurd (ground arith)) in
        rw (ge, other, none.0, none.1)
  ]
]
