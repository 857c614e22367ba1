-- ===== src/Racey/Bounds.antt =====
-- racey.c: the objects and the values of the calls.
use mem_order.Base.{
  ℕ, zero, suc, ◌<◌, ◌≡◌, ◌%◌, List, [], ◌∷◌, some, arith, Bool-cases, inl, inr, ltb, subst, ◌+◌,
  ◌*◌, ◌≤◌, pos,
}
use mem_order.Replay.Defs.{Call, read, write, objid}
use mem_order.Racey.{calc_objid_racey, mix, main_loop, thread_body, max_elem, prime1, initial_sig}

-- The value that a call writes is a value of `mix`.
abbrev pub IsMixed : Call → Type 0
IsMixed (read o) = Unit
IsMixed (write o x) = x < prime1

mix-lt : (i j : ℕ) → mix i j < prime1
unfolding mix
mix-lt i j = omega arith

mod_elem : (x : ℕ) → x % max_elem < max_elem
mod_elem x = omega arith

abbrev InBounds : Call → Type 0
InBounds call = (objid call < max_elem) × IsMixed call

is_call : {c d : Call} → some c ≡ some d → InBounds c → InBounds d
is_call {c} {d} p b = let e : c ≡ d = cc in subst InBounds e b

main_loop-InBounds :
    (n num m : ℕ) (reads : List ℕ) (call : Call)
    → main_loop n num m reads ≡ some call
    → InBounds call
unfolding main_loop
main_loop-InBounds zero num m reads call p = absurd cc
main_loop-InBounds (suc n) num zero reads call p = is_call p (mod_elem num, tt)
main_loop-InBounds (suc n) num (suc zero) [] call p = absurd cc
main_loop-InBounds (suc n) num (suc zero) (x ∷ reads) call p = is_call p (mod_elem (mix num x), tt)
main_loop-InBounds (suc n) num (suc (suc zero)) [] call p = absurd cc
main_loop-InBounds (suc n) num (suc (suc (suc m))) [] call p = absurd cc
main_loop-InBounds (suc n) num (suc (suc zero)) (x ∷ []) call p = absurd cc
main_loop-InBounds (suc n) num (suc (suc (suc m))) (x ∷ []) call p = absurd cc
main_loop-InBounds (suc n) num (suc (suc zero)) (x ∷ y ∷ reads) call p =
    is_call p (mod_elem (mix num x), mix-lt (mix num x) y)
main_loop-InBounds (suc n) num (suc (suc (suc m))) (x ∷ y ∷ reads) call p =
    main_loop-InBounds n (mix (mix num x) y) m reads call p

-- Whatever has been read: a call of a thread is of one of the 64 words of `g_m`, as the assertion
-- of `calc_objid_racey` has it, and a value that it writes is less than `PRIME1`.
pub thread_body-InBounds :
    (num_procs n t m : ℕ) (reads : List ℕ) (call : Call)
    → thread_body num_procs n t m reads ≡ some call
    → (objid call < max_elem) × IsMixed call
unfolding thread_body
thread_body-InBounds num_procs n t m reads call p = elim (Bool-cases (ltb t num_procs)) [
  | inl e ↦ main_loop-InBounds n (initial_sig t) m reads call (rw e at p)
  | inr e ↦ absurd (let q = rw e at p in cc)
]

-- Where `g_m` lies below the end of the address space: every address within its word `i` is of the
-- object `i`.
pub calc_objid_racey-word :
    (g_m i k : ℕ)
    → g_m + 4096 ≤ 18446744073709551616
    → i < max_elem
    → k < 64
    → calc_objid_racey g_m (g_m + i * 64 + k) ≡ some (pos i)
calc_objid_racey-word g_m i k le lt small = ground arith
