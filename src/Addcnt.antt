-- ===== src/Addcnt.antt =====
-- addcnt.c: threads that add to shared counters, as programs of the recorder.
pub mod Bounds
pub mod Alone
use mem_order.Base.{
  ℕ, zero, suc, ◌+◌, ◌-◌, ◌*◌, ◌%◌, ◌/◌, ltb, if◌then◌else◌, List, [], ◌∷◌, ◌++◌, Option, none,
  some, get_elem?, update, ℤ, int_of, address_diff,
}
use mem_order.Replay.Defs.{Call, read, write, Program}

abbrev pub nobjs : ℕ
nobjs = 10

abbrev niter : ℕ
niter = 20000

-- With the address of `g_obj`. The arithmetic shift and the division differ only in bits that the
-- `int` does not hold.
abbrev pub calc_objid_addcnt : ℕ → ℕ → ℤ
calc_objid_addcnt g_obj addr = int_of (address_diff addr g_obj / 8)

-- `val = mem_read(g_tid, &g_obj[j])` and `mem_write(g_tid, &g_obj[j], val + k)`.
pub data CounterAccess : Type 0 where
  load : ℕ → CounterAccess
  store : ℕ → ℕ → CounterAccess

-- `uint32_t`
abbrev pub add_word : ℕ → ℕ → ℕ
add_word val k = (val + k) % 4294967296

-- The inner loop of `access_thr_fn1`, from `j` on, `n` rounds of it.
unfoldable pub ascending : ℕ → ℕ → List CounterAccess
ascending j zero = []
ascending j (suc n) = load j ∷ store j 1 ∷ ascending (suc j) n

-- The inner loop of `access_thr_fn2`, below `j`.
unfoldable pub descending : ℕ → List CounterAccess
descending zero = []
descending (suc j) = load j ∷ store j 1 ∷ descending j

-- The body of the inner loops of `access_thr_fn3` and `access_thr_fn4`.
abbrev pub crosswise : ℕ → ℕ → List CounterAccess
crosswise j j1 = load j ∷ store j1 1 ∷ load j1 ∷ store j 2 ∷ []

-- The inner loop of `access_thr_fn3`, at most `n` rounds of it.
unfoldable pub ascending_pairs : ℕ → ℕ → List CounterAccess
ascending_pairs zero j = []
ascending_pairs (suc n) j =
    let rest = ascending_pairs n (j + 2) in
    if ltb j (nobjs - 1) then crosswise j (j + 1) ++ rest else []

-- The inner loop of `access_thr_fn4`; where `j - 2` would be negative, the loop ends as at 0.
unfoldable pub descending_pairs : ℕ → ℕ → List CounterAccess
descending_pairs zero j = []
descending_pairs (suc n) j =
    let rest = descending_pairs n (j - 2) in if ltb 0 j then crosswise j (j - 1) ++ rest else []

-- The outer loop, `n` rounds of it.
unfoldable pub rounds : ℕ → List CounterAccess → List CounterAccess
rounds zero inner = []
rounds (suc n) inner = inner ++ rounds n inner

unfoldable pub access_thr_fn1 : ℕ → List CounterAccess
unfolding ascending rounds
access_thr_fn1 n = rounds n (ascending 0 nobjs)

unfoldable pub access_thr_fn2 : ℕ → List CounterAccess
unfolding descending rounds
access_thr_fn2 n = rounds n (descending nobjs)

unfoldable pub access_thr_fn3 : ℕ → List CounterAccess
unfolding ascending_pairs rounds
access_thr_fn3 n = rounds n (ascending_pairs nobjs 0)

unfoldable pub access_thr_fn4 : ℕ → List CounterAccess
unfolding descending_pairs rounds
access_thr_fn4 n = rounds n (descending_pairs nobjs (nobjs - 1))

abbrev pub thr_fn : List (ℕ → List CounterAccess)
thr_fn = access_thr_fn1 ∷ access_thr_fn2 ∷ access_thr_fn3 ∷ access_thr_fn4 ∷ []

-- `i % sizeof(thr_fn)/sizeof(thr_fn[0])`, with pointers of 8 bytes.
abbrev pub thr_fn_index : ℕ → ℕ
thr_fn_index i = i % 32 / 8

-- The call number `m` of a thread that makes the given accesses, where `val` is its last value and
-- `mem_read` will return the values `reads`.
unfoldable pub next_call : List CounterAccess → ℕ → ℕ → List ℕ → Option Call
next_call (load j ∷ rest) val zero reads = some (read j)
next_call (store j k ∷ rest) val zero reads = some (write j (add_word val k))
next_call (load j ∷ rest) val (suc m) (x ∷ reads) = next_call rest x m reads
next_call (store j k ∷ rest) val (suc m) reads = next_call rest val m reads
next_call _ _ _ _ = none

-- The threads below `nthr`, `n` rounds each; the source takes `niter` of them.
unfoldable pub add_counts : ℕ → ℕ → Program
unfolding next_call
add_counts nthr n t m reads =
    if ltb t nthr
    then elim (get_elem? thr_fn (thr_fn_index t)) [
      | none ↦ none
      | some fn ↦ next_call (fn n) 0 m reads
    ]
    else none

-- The accesses made without a recorder, as mem.h defines `mem_read` and `mem_write` then.
unfoldable pub run_alone : List CounterAccess → ℕ → (ℕ → ℕ) → ℕ → ℕ
run_alone [] val memory = memory
run_alone (load j ∷ rest) val memory = run_alone rest (memory j) memory
run_alone (store j k ∷ rest) val memory = run_alone rest val (update memory j (add_word val k))
