-- ===== src/Addcnt/Bounds.antt =====
-- addcnt.c: the objects of the calls.

use mem_order.Base.{
  ℕ, zero, suc, ◌+◌, ◌-◌, ◌<◌, ◌≤◌, ◌≡◌, List, [], ◌∷◌, ◌++◌, Option, none, some, get_elem?, arith,
  refl, inl, inr, ltb, ◌*◌, pos, Bool-cases, subst,
}
use mem_order.Replay.Defs.{Call, objid}
use mem_order.Addcnt.{
  nobjs, CounterAccess, load, store, ascending, descending, crosswise, ascending_pairs,
  descending_pairs, rounds, access_thr_fn1, access_thr_fn2, access_thr_fn3, access_thr_fn4, thr_fn,
  thr_fn_index, next_call, add_counts, calc_objid_addcnt,
}

-- The accesses are to objects below `nobjs`.
InRange : List CounterAccess → Type 0
InRange [] = Unit
InRange (load j ∷ rest) = (j < nobjs) × InRange rest
InRange (store j k ∷ rest) = (j < nobjs) × InRange rest

InRange-append : (xs ys : List CounterAccess) → InRange xs → InRange ys → InRange (xs ++ ys)
unfolding InRange
InRange-append [] ys a b = b
InRange-append (load j ∷ xs) ys a b = (a.0, InRange-append xs ys a.1 b)
InRange-append (store j k ∷ xs) ys a b = (a.0, InRange-append xs ys a.1 b)

crosswise-InRange : (j i : ℕ) → j < nobjs → i < nobjs → InRange (crosswise j i)
unfolding InRange
crosswise-InRange j i a b = (a, (b, (b, (a, tt))))

ascending-InRange : (j n : ℕ) → j + n ≤ nobjs → InRange (ascending j n)
unfolding ascending InRange
ascending-InRange j zero le = tt
ascending-InRange j (suc n) le =
    (omega arith, (omega arith, ascending-InRange (suc j) n (omega arith)))

descending-InRange : (j : ℕ) → j ≤ nobjs → InRange (descending j)
unfolding descending InRange
descending-InRange zero le = tt
descending-InRange (suc j) le = (omega arith, (omega arith, descending-InRange j (omega arith)))

ascending_pairs-InRange : (n j : ℕ) → InRange (ascending_pairs n j)
unfolding ascending_pairs InRange
ascending_pairs-InRange zero j = tt
ascending_pairs-InRange (suc n) j = elim (Bool-cases (ltb j (nobjs - 1))) [
  | inl e ↦
      let lt : j + 1 < nobjs = ground arith in
      rw e (
        InRange-append (crosswise j (j + 1)) _ (crosswise-InRange j (j + 1) (omega arith) lt)
          (ascending_pairs-InRange n (j + 2)))
  | inr e ↦ rw e tt
]

descending_pairs-InRange : (n j : ℕ) → j < nobjs → InRange (descending_pairs n j)
unfolding descending_pairs InRange
descending_pairs-InRange zero j lt = tt
descending_pairs-InRange (suc n) j lt = elim (Bool-cases (ltb 0 j)) [
  | inl e ↦ rw e (
      InRange-append (crosswise j (j - 1)) _ (crosswise-InRange j (j - 1) lt (omega arith))
        (descending_pairs-InRange n (j - 2) (omega arith)))
  | inr e ↦ rw e tt
]

rounds-InRange : (n : ℕ) (inner : List CounterAccess) → InRange inner → InRange (rounds n inner)
unfolding rounds InRange
rounds-InRange zero inner a = tt
rounds-InRange (suc n) inner a = InRange-append inner (rounds n inner) a (rounds-InRange n inner a)

same_fn : {f g : ℕ → List CounterAccess} (n : ℕ) → some f ≡ some g → InRange (f n) → InRange (g n)
same_fn {f} {g} n p a = let e : f ≡ g = cc in subst (λ h. InRange (h n)) e a

thr_fn-InRange :
    (k n : ℕ) (fn : ℕ → List CounterAccess) → get_elem? thr_fn k ≡ some fn → InRange (fn n)
unfolding access_thr_fn1 access_thr_fn2 access_thr_fn3 access_thr_fn4
thr_fn-InRange zero n fn p =
    same_fn n p (rounds-InRange n (ascending 0 nobjs) (ascending-InRange 0 nobjs (omega arith)))
thr_fn-InRange (suc zero) n fn p =
    same_fn n p (rounds-InRange n (descending nobjs) (descending-InRange nobjs (omega arith)))
thr_fn-InRange (suc (suc zero)) n fn p =
    same_fn n p (rounds-InRange n (ascending_pairs nobjs 0) (ascending_pairs-InRange nobjs 0))
thr_fn-InRange (suc (suc (suc zero))) n fn p =
    same_fn n p
      (rounds-InRange n (descending_pairs nobjs 9) (descending_pairs-InRange nobjs 9 (omega arith)))
thr_fn-InRange (suc (suc (suc (suc k)))) n fn p = absurd cc

same_call : {c d : Call} → some c ≡ some d → objid c < nobjs → objid d < nobjs
same_call {c} {d} p lt = let e : c ≡ d = cc in subst (λ x. objid x < nobjs) e lt

next_call-lt :
    (xs : List CounterAccess) (val m : ℕ) (reads : List ℕ) (call : Call)
    → InRange xs
    → next_call xs val m reads ≡ some call
    → objid call < nobjs
unfolding next_call InRange
next_call-lt [] val m reads call a p = absurd cc
next_call-lt (load j ∷ xs) val zero reads call a p = same_call p a.0
next_call-lt (load j ∷ xs) val (suc m) [] call a p = absurd cc
next_call-lt (load j ∷ xs) val (suc m) (x ∷ reads) call a p = next_call-lt xs x m reads call a.1 p
next_call-lt (store j k ∷ xs) val zero reads call a p = same_call p a.0
next_call-lt (store j k ∷ xs) val (suc m) reads call a p = next_call-lt xs val m reads call a.1 p

-- Whatever has been read: a call of a thread is of one of the `NOBJS` objects that `mem_init` is
-- told of, whichever function the thread runs.
pub add_counts-objid :
    (nthr n t m : ℕ) (reads : List ℕ) (call : Call)
    → add_counts nthr n t m reads ≡ some call
    → objid call < nobjs
unfolding add_counts
add_counts-objid nthr n t m reads call p = elim (Bool-cases (ltb t nthr)) [
  | inl e ↦ run_by (get_elem? thr_fn (thr_fn_index t)) refl (rw e at p)
  | inr e ↦ absurd (let q = rw e at p in cc)
]
  where
    run_by :
        (f : Option (ℕ → List CounterAccess))
        → get_elem? thr_fn (thr_fn_index t) ≡ f
        → (elim f [ none ↦ none | some fn ↦ next_call (fn n) 0 m reads ]) ≡ some call
        → objid call < nobjs
    run_by none e q = absurd cc
    run_by (some fn) e q =
        next_call-lt (fn n) 0 m reads call (thr_fn-InRange (thr_fn_index t) n fn e) q

-- Where `g_obj` lies below the end of the address space: every address within its element `i` is of
-- the object `i`.
pub calc_objid_addcnt-element :
    (g_obj i k : ℕ)
    → g_obj + 80 ≤ 18446744073709551616
    → i < nobjs
    → k < 8
    → calc_objid_addcnt g_obj (g_obj + i * 8 + k) ≡ pos i
calc_objid_addcnt-element g_obj i k le lt small = ground arith
