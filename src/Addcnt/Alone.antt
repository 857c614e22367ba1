-- ===== src/Addcnt/Alone.antt =====
-- addcnt.c: what a thread that runs alone adds to the counters, without a recorder.
use mem_order.Base.{
  ℕ, zero, suc, ◌+◌, ◌<◌, ◌≤◌, ◌≡◌, List, ◌++◌, arith, refl, ap, ◌∙◌, update, dec_lt, get_elem?,
  some,
}
use mem_order.Addcnt.{
  nobjs, CounterAccess, ascending, descending, rounds, access_thr_fn1, access_thr_fn2, run_alone,
  add_word, thr_fn, thr_fn_index,
}

-- A loop body that adds 1 to every object, whatever the last value was.
abbrev AddsOne : List CounterAccess → Type 0
AddsOne inner =
    (rest : List CounterAccess) (val : ℕ) (memory : ℕ → ℕ)
    → (val' : ℕ) × (memory' : ℕ → ℕ) × (run_alone (inner ++ rest) val memory
        ≡ run_alone rest val' memory')
      × ((o : ℕ) → o < nobjs → memory' o ≡ add_word (memory o) 1)

ascending-run :
    (n j : ℕ) (rest : List CounterAccess) (val : ℕ) (memory : ℕ → ℕ)
    → (val' : ℕ) × (memory' : ℕ → ℕ) × (run_alone (ascending j n ++ rest) val memory
        ≡ run_alone rest val' memory')
      × ((o : ℕ) → o < j → memory' o ≡ memory o)
      × ((o : ℕ) → j ≤ o → o < j + n → memory' o ≡ add_word (memory o) 1)
unfolding ascending run_alone
ascending-run zero j rest val memory =
    (val, memory, refl, λ o lt. refl, λ o le lt. absurd (omega arith))
ascending-run (suc n) j rest val memory =
    let next = update memory j (add_word (memory j) 1) in
    let (val', memory', p, before, inside) = ascending-run n (suc j) rest (memory j) next in
    (
      val',
      memory',
      p,
      λ o lt. before o (omega arith) ∙ ground arith,
      λ o le lt. elim (dec_lt j o) [
        | yes more ↦ inside o (omega arith) (omega arith) ∙ ground arith
        | no less ↦ let e : o ≡ j = omega arith in before o (omega arith) ∙ ground arith
      ],
    )

descending-run :
    (j : ℕ) (rest : List CounterAccess) (val : ℕ) (memory : ℕ → ℕ)
    → (val' : ℕ) × (memory' : ℕ → ℕ) × (run_alone (descending j ++ rest) val memory
        ≡ run_alone rest val' memory')
      × ((o : ℕ) → j ≤ o → memory' o ≡ memory o)
      × ((o : ℕ) → o < j → memory' o ≡ add_word (memory o) 1)
unfolding descending run_alone
descending-run zero rest val memory =
    (val, memory, refl, λ o le. refl, λ o lt. absurd (omega arith))
descending-run (suc j) rest val memory =
    let next = update memory j (add_word (memory j) 1) in
    let (val', memory', p, beyond, inside) = descending-run j rest (memory j) next in
    (
      val',
      memory',
      p,
      λ o le. beyond o (omega arith) ∙ ground arith,
      λ o lt. elim (dec_lt o j) [
        | yes less ↦ inside o less ∙ ground arith
        | no more ↦ let e : o ≡ j = omega arith in beyond o (omega arith) ∙ ground arith
      ],
    )

ascending-AddsOne : AddsOne (ascending 0 nobjs)
ascending-AddsOne rest val memory =
    let (val', memory', p, _, inside) = ascending-run nobjs 0 rest val memory in
    (val', memory', p, λ o lt. inside o (omega arith) lt)

descending-AddsOne : AddsOne (descending nobjs)
descending-AddsOne rest val memory =
    let (val', memory', p, _, inside) = descending-run nobjs rest val memory in
    (val', memory', p, inside)

rounds-run :
    (inner : List CounterAccess)
    → AddsOne inner
    → (n val : ℕ) (memory : ℕ → ℕ) → ((o : ℕ) → o < nobjs → memory o < 4294967296)
    → (o : ℕ) → o < nobjs
    → run_alone (rounds n inner) val memory o ≡ add_word (memory o) n
unfolding rounds run_alone
rounds-run inner adds zero val memory words o lt = let small = words o lt in omega arith
rounds-run inner adds (suc n) val memory words o lt =
    let (val', memory', p, more) = adds (rounds n inner) val memory in
    let one = more o lt in
    ap (λ f. f o) p
    ∙ rounds-run inner adds n val' memory' (λ u below. rw (more u below) (omega arith)) o lt
    ∙ omega (arith, one)

-- A thread of `access_thr_fn1` that runs alone for `n` rounds adds `n` to every object, in 32-bit
-- words, and so does one of `access_thr_fn2`.
pub access_thr_fn-run_alone :
    (n val : ℕ) (memory : ℕ → ℕ)
    → ((o : ℕ) → o < nobjs → memory o < 4294967296)
    → (o : ℕ) → o < nobjs
    → (run_alone (access_thr_fn1 n) val memory o ≡ add_word (memory o) n)
      × (run_alone (access_thr_fn2 n) val memory o ≡ add_word (memory o) n)
unfolding access_thr_fn1 access_thr_fn2
access_thr_fn-run_alone n val memory words o lt = (
  rounds-run (ascending 0 nobjs) ascending-AddsOne n val memory words o lt,
  rounds-run (descending nobjs) descending-AddsOne n val memory words o lt,
)

-- Each of the threads 0 to 7 runs the first of the four functions of the table, since the remainder
-- is taken by the size of the table in bytes.
pub thr_fn_index-first : (i : ℕ) → i < 8 → get_elem? thr_fn (thr_fn_index i) ≡ some access_thr_fn1
thr_fn_index-first i lt =
    let first : thr_fn_index i ≡ 0 = omega arith in ap (get_elem? thr_fn) first
