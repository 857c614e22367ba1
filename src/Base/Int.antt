-- ===== src/Base/Int.antt =====
-- Signed integers over the native numbers, as far as the sources compute with them: the sentinel
-- -1, the complement `~`, and the comparisons.
use Prim.Native.Nat.{ℕ, ◌+◌, ◌-◌, ◌%◌}
use mathlib.Core.Path.{◌≡◌, refl}
use mathlib.Core.Logic.{◌⊎◌, inl, inr}
use mathlib.Core.Bool.{Bool, true, false}
use mem_order.Base.Tests.{ltb, ◌==◌, if◌then◌else◌}

-- `negsuc n` is -(n + 1).
pub data ℤ : Type 0 where
  pos : ℕ → ℤ
  negsuc : ℕ → ℤ

-- The -1 that marks "no value" in the logs.
abbrev pub minus_one : ℤ
minus_one = negsuc 0

-- `~x` is -x - 1 in two's complement.
abbrev pub complement : ℤ → ℤ
complement (pos n) = negsuc n
complement (negsuc n) = pos n

abbrev pub is_neg : ℤ → Bool
is_neg (pos _) = false
is_neg (negsuc _) = true

abbrev pub eq_ℤ : ℤ → ℤ → Bool
eq_ℤ (pos a) (pos b) = a == b
eq_ℤ (negsuc a) (negsuc b) = a == b
eq_ℤ _ _ = false

abbrev pub ltb_ℤ : ℤ → ℤ → Bool
ltb_ℤ (pos a) (pos b) = ltb a b
ltb_ℤ (negsuc a) (negsuc b) = ltb b a
ltb_ℤ (pos _) (negsuc _) = false
ltb_ℤ (negsuc _) (pos _) = true

pub ℤ-cases : (z : ℤ) → ((k : ℕ) × (z ≡ pos k)) ⊎ (is_neg z ≡ true)
ℤ-cases (pos k) = inl (k, refl)
ℤ-cases (negsuc k) = inr refl

-- The `int` that a 64-bit word is converted to.
abbrev pub int_of : ℕ → ℤ
int_of w =
    if ltb (w % 4294967296) 2147483648
    then pos (w % 4294967296)
    else negsuc (4294967295 - w % 4294967296)

-- The difference of two addresses, as a 64-bit word.
abbrev pub address_diff : ℕ → ℕ → ℕ
address_diff a b = (a + (18446744073709551616 - b)) % 18446744073709551616
