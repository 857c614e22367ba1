-- ===== src/Racey/Signature.antt =====
-- racey.c: the signature that is printed, next to what the threads write.
use mem_order.Base.{
  ℕ, zero, suc, ◌+◌, ◌*◌, ◌≤◌, ◌<◌, ◌≡◌, ltb, true, List, [], ◌∷◌, some, length, arith, refl, ap,
  ◌∙◌,
}
use mem_order.Replay.Defs.{write}
use mem_order.Racey.{main_loop, end_sig, thread_body, mix, mix_sigs, mix_sig, initial_sig}

-- The call at the end of round `k` writes the signature after that round.
main_loop-end_sig :
    (n k num : ℕ) (reads : List ℕ)
    → k < n
    → 2 * suc k ≤ length reads
    → (o : ℕ) × (main_loop n num (3 * k + 2) reads ≡ some (write o (end_sig (suc k) num reads)))
unfolding main_loop end_sig
main_loop-end_sig zero k num reads lt le = absurd (omega arith)
main_loop-end_sig (suc n) k num [] lt le = absurd (omega arith)
main_loop-end_sig (suc n) k num (x ∷ []) lt le = absurd (omega arith)
main_loop-end_sig (suc n) zero num (x ∷ y ∷ reads) lt le = (_, refl)
main_loop-end_sig (suc n) (suc k) num (x ∷ y ∷ reads) lt le =
    let at : 3 * suc k + 2 ≡ suc (suc (suc (3 * k + 2))) = omega arith in
    let (o, e) =
      main_loop-end_sig n k (mix (mix num x) y) reads (omega (arith, lt)) (omega (arith, le)) in
    (o, ap (λ m. main_loop (suc n) num m (x ∷ y ∷ reads)) at ∙ e)

-- The loop over the signatures, by its last round.
mix_sigs-snoc :
    (i k : ℕ) (sig : ℕ → ℕ) (acc : ℕ)
    → mix_sigs i (suc k) sig acc ≡ mix (sig (i + k)) (mix_sigs i k sig acc)
unfolding mix_sigs
mix_sigs-snoc i zero sig acc = let e : i ≡ i + 0 = omega arith in ap (λ j. mix (sig j) acc) e
mix_sigs-snoc i (suc k) sig acc =
    let e : suc i + k ≡ i + suc k = omega arith in
    mix_sigs-snoc (suc i) k sig (mix (sig i) acc)
    ∙ ap (λ j. mix (sig j) (mix_sigs (suc i) k sig (mix (sig i) acc))) e

-- Each of `suc k` threads has read the two values of each of `suc n` rounds. Then the signature of
-- one thread is the last value that thread 0 writes, and the signature of one thread more mixes the
-- last value that this thread writes into the signature of the threads before it.
pub mix_sig-written :
    (k n : ℕ) (reads : ℕ → List ℕ)
    → ((t : ℕ) → t < suc k → 2 * suc n ≤ length (reads t))
    → (last : ℕ → ℕ) × ((t : ℕ)
        → t < suc k
        → (o : ℕ) × (thread_body (suc k) (suc n) t (3 * n + 2) (reads t) ≡ some (write o (last t))))
      × (mix_sig 1 (suc n) reads ≡ last 0)
      × ((t : ℕ)
          → t < k
          → mix_sig (suc (suc t)) (suc n) reads
            ≡ mix (last (suc t)) (mix_sig (suc t) (suc n) reads))
unfolding thread_body mix_sig mix_sigs
mix_sig-written k n reads enough = (
  λ t. end_sig (suc n) (initial_sig t) (reads t),
  λ t lt.
      let below : ltb t (suc k) ≡ true = ground arith in
      let (o, e) =
        main_loop-end_sig (suc n) n (initial_sig t) (reads t) (omega arith) (enough t lt) in
      (o, rw below e),
  refl,
  λ t lt.
      let next : 1 + t ≡ suc t = omega arith in
      mix_sigs-snoc 1 t (λ u. end_sig (suc n) (initial_sig u) (reads u)) _
      ∙ ap (λ u. mix (end_sig (suc n) (initial_sig u) (reads u)) (mix_sig (suc t) (suc n) reads))
          next,
)
