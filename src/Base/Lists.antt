-- ===== src/Base/Lists.antt =====
-- Lists measured and indexed by native numbers, under the library's names.
use Prim.Native.Nat.{ℕ, zero, suc, ◌+◌, ◌<◌, ◌≤◌}
use mathlib.Core.Path.{◌≡◌, refl, ap, ◌∙◌, sym}
use mathlib.Core.Logic.{◌⊎◌, inl, inr}
use mathlib.Core.List.{List, [], ◌∷◌, ◌++◌, append_assoc}
use mathlib.Core.List.{Memᴰ}
use mathlib.Core.List.Memᴰ as MemD
use mathlib.Core.Option.{Option, none, some}
use native.Mathlib.Omega.{arith}

module _ {ℓ} {A : Type ℓ} where
  abbrev pub length : List A → ℕ
  length [] = 0
  length (_ ∷ xs) = suc (length xs)

  abbrev pub get_elem? : List A → ℕ → Option A
  get_elem? [] _ = none
  get_elem? (x ∷ _) zero = some x
  get_elem? (_ ∷ xs) (suc i) = get_elem? xs i

  abbrev pub take : ℕ → List A → List A
  take zero _ = []
  take (suc n) [] = []
  take (suc n) (x ∷ xs) = x ∷ take n xs

  abbrev pub drop : ℕ → List A → List A
  drop zero xs = xs
  drop (suc n) [] = []
  drop (suc n) (_ ∷ xs) = drop n xs

  pub length-append : (xs ys : List A) → length (xs ++ ys) ≡ length xs + length ys
  length-append [] ys = omega arith
  length-append (_ ∷ xs) ys = omega (arith, length-append xs ys)

  pub drop-get_elem? :
      (n : ℕ) (xs : List A) {a : A} → get_elem? xs n ≡ some a → drop n xs ≡ a ∷ drop (suc n) xs
  drop-get_elem? n [] h = ground arith
  drop-get_elem? zero (x ∷ xs) h = ground arith
  drop-get_elem? (suc n) (x ∷ xs) h = drop-get_elem? n xs h

module _ {ℓ} {A : Type ℓ} where
  pub mem-get_elem? : (xs : List A) {x : A} → Memᴰ x xs → (i : ℕ) × (get_elem? xs i ≡ some x)
  mem-get_elem? [] m = absurd (MemD.not-nil m)
  mem-get_elem? (y ∷ xs) m = elim (MemD.cases_cons m) [
    | inl e ↦ (0, ap some (sym e))
    | inr h ↦ let (i, q) = mem-get_elem? xs h in (suc i, q)
  ]

  pub get_elem?-mem : (xs : List A) (i : ℕ) {x : A} → get_elem? xs i ≡ some x → Memᴰ x xs
  get_elem?-mem [] i e = absurd (cc)
  get_elem?-mem (y ∷ xs) zero e = Memᴰ.head (cc)
  get_elem?-mem (y ∷ xs) (suc i) e = Memᴰ.tail (get_elem?-mem xs i e)

-- A list grown in two steps.
pub append-grow {ℓ} :
    {A : Type ℓ} {s t : List A} (p q u : List A) → t ≡ s ++ u → s ≡ p ++ q → t ≡ p ++ (q ++ u)
append-grow p q u e d = e ∙ ap (λ l. l ++ u) d ∙ append_assoc p q u

-- Lists grown at their end, and cut.
module _ {ℓ} {A : Type ℓ} where
  pub get_elem?-append :
      (xs ys : List A) (m : ℕ) {a : A} → get_elem? xs m ≡ some a → get_elem? (xs ++ ys) m ≡ some a
  get_elem?-append [] ys m h = absurd cc
  get_elem?-append (x ∷ xs) ys zero h = h
  get_elem?-append (x ∷ xs) ys (suc m) h = get_elem?-append xs ys m h

  -- The elements of a list with one more at its end.
  pub get_elem?-snoc :
      (xs : List A) (z : A) (m : ℕ) {a : A}
      → get_elem? (xs ++ (z ∷ [])) m ≡ some a
      → ((get_elem? xs m ≡ some a) × (m < length xs)) ⊎ ((m ≡ length xs) × (a ≡ z))
  get_elem?-snoc [] z zero h = inr (refl, cc)
  get_elem?-snoc [] z (suc m) h = absurd cc
  get_elem?-snoc (x ∷ xs) z zero h = inl (h, omega arith)
  get_elem?-snoc (x ∷ xs) z (suc m) h = elim (get_elem?-snoc xs z m h) [
    | inl (p, lt) ↦ inl (p, omega (arith, lt))
    | inr (e, q) ↦ inr (omega (arith, e), q)
  ]

  pub get_elem?-lt : (xs : List A) (m : ℕ) {a : A} → get_elem? xs m ≡ some a → m < length xs
  get_elem?-lt [] m h = absurd cc
  get_elem?-lt (x ∷ xs) zero h = omega arith
  get_elem?-lt (x ∷ xs) (suc m) h = omega (arith, get_elem?-lt xs m h)

  pub lt-get_elem? : (xs : List A) (m : ℕ) → m < length xs → (a : A) × (get_elem? xs m ≡ some a)
  lt-get_elem? [] m lt = absurd (omega arith)
  lt-get_elem? (x ∷ xs) zero lt = (x, refl)
  lt-get_elem? (x ∷ xs) (suc m) lt = lt-get_elem? xs m (omega arith)

  pub take-append : (xs ys : List A) (m : ℕ) → m ≤ length xs → take m (xs ++ ys) ≡ take m xs
  take-append xs ys zero le = refl
  take-append [] ys (suc m) le = absurd (omega arith)
  take-append (x ∷ xs) ys (suc m) le = ap (λ l. x ∷ l) (take-append xs ys m (omega arith))

  pub take-all : (xs : List A) (m : ℕ) → length xs ≤ m → take m xs ≡ xs
  take-all [] zero le = refl
  take-all [] (suc m) le = refl
  take-all (x ∷ xs) zero le = absurd (omega arith)
  take-all (x ∷ xs) (suc m) le = ap (λ l. x ∷ l) (take-all xs m (omega arith))

  pub get_elem?-take :
      (n : ℕ) (xs : List A) (m : ℕ) {a : A}
      → get_elem? (take n xs) m ≡ some a
      → get_elem? xs m ≡ some a
  get_elem?-take zero xs m h = absurd cc
  get_elem?-take (suc n) [] m h = absurd cc
  get_elem?-take (suc n) (x ∷ xs) zero h = h
  get_elem?-take (suc n) (x ∷ xs) (suc m) h = get_elem?-take n xs m h

  pub take-drop : (n : ℕ) (xs : List A) → take n xs ++ drop n xs ≡ xs
  take-drop zero xs = refl
  take-drop (suc n) [] = refl
  take-drop (suc n) (x ∷ xs) = ap (λ l. x ∷ l) (take-drop n xs)
