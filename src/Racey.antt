-- ===== src/Racey.antt =====
-- racey.c: threads that mix shared words into a signature, as a program of the recorder.
pub mod Bounds
pub mod Signature
use mem_order.Base.{
  ℕ, zero, suc, ◌+◌, ◌*◌, ◌%◌, ◌/◌, ltb, if◌then◌else◌, List, [], ◌∷◌, Option, none, some, ℤ, pos,
  ltb_ℤ, int_of, address_diff,
}
use mem_order.Replay.Defs.{Call, read, write, Program}

abbrev max_loop : ℕ
max_loop = 1000000

abbrev pub max_elem : ℕ
max_elem = 64

abbrev pub prime1 : ℕ
prime1 = 103072243

abbrev pub prime2 : ℕ
prime2 = 103995407

-- With the address of `g_m`; `none` is the failed assertion.
abbrev pub calc_objid_racey : ℕ → ℕ → Option ℤ
calc_objid_racey g_m addr =
    if ltb_ℤ (int_of (address_diff addr g_m / 64)) (pos max_elem)
    then some (int_of (address_diff addr g_m / 64))
    else none

-- The sum and the product are of 32-bit words.
unfoldable pub mix : ℕ → ℕ → ℕ
mix i j = (i + j * prime2) % 4294967296 % prime1

-- `g_sig`
abbrev pub initial_sig : ℕ → ℕ
initial_sig t = t

-- `g_m` after the loop of `main`.
abbrev pub initial_value : ℕ → ℕ
initial_value i = mix i i

-- The main loop, `n` rounds of it, from the signature `num`: the call number `m`, where `mem_read`
-- has returned the values `reads`.
unfoldable pub main_loop : ℕ → ℕ → ℕ → List ℕ → Option Call
main_loop (suc n) num zero reads = some (read (num % max_elem))
main_loop (suc n) num (suc zero) (x ∷ reads) = some (read (mix num x % max_elem))
main_loop (suc n) num (suc (suc zero)) (x ∷ y ∷ reads) =
    some (write (mix num x % max_elem) (mix (mix num x) y))
main_loop (suc n) num (suc (suc (suc m))) (x ∷ y ∷ reads) = main_loop n (mix (mix num x) y) m reads
main_loop _ _ _ _ = none

-- `g_sig` of a thread after `n` rounds.
unfoldable pub end_sig : ℕ → ℕ → List ℕ → ℕ
end_sig (suc n) num (x ∷ y ∷ reads) = end_sig n (mix (mix num x) y) reads
end_sig _ num _ = num

-- The threads below `num_procs` run `n` rounds; the source takes `max_loop` of them.
unfoldable pub thread_body : ℕ → ℕ → Program
unfolding main_loop
thread_body num_procs n t m reads =
    if ltb t num_procs then main_loop n (initial_sig t) m reads else none

-- The loop that combines the signatures, over the threads from `i` on, `k` of them.
unfoldable pub mix_sigs : ℕ → ℕ → (ℕ → ℕ) → ℕ → ℕ
unfolding mix
mix_sigs i zero sig acc = acc
mix_sigs i (suc k) sig acc = mix_sigs (suc i) k sig (mix (sig i) acc)

-- The signature that is printed, from the values that each thread has read.
unfoldable pub mix_sig : ℕ → ℕ → (ℕ → List ℕ) → ℕ
unfolding mix_sigs end_sig
mix_sig zero n reads = end_sig n (initial_sig 0) (reads 0)
mix_sig (suc k) n reads =
    mix_sigs 1 k (λ t. end_sig n (initial_sig t) (reads t)) (end_sig n (initial_sig 0) (reads 0))
