-- ===== src/Base/Bits.antt =====
-- Facts about `bit_and`, `bit_or` and `bit_xor` at variables: tables over small ranges, and the
-- digit-wise laws from which single bits are read.
pub mod Masks
use Prim.Native.Nat.{ℕ, zero, suc, ◌+◌, ◌-◌, ◌*◌, ◌/◌, ◌%◌, ◌≤◌, ◌<◌, min, max, bit_and, bit_or}
use Prim.Native.Nat.{digits, bitwise, bit_and-bitwise, bit_or-bitwise}
use mathlib.Core.Path.{◌≡◌, refl, sym, ap, ◌∙◌}
use mathlib.Core.Bool.{Bool, true, ◌&&◌}
use native.Mathlib.Omega.{arith}
use native.Mathlib.Nat.{le_refl}

-- A test that holds of every number below a bound is checked by running it.
unfoldable pub all_below : ℕ → (ℕ → Bool) → Bool
all_below zero test = true
all_below (suc bound) test = all_below bound test && test bound

pub all_below_sound :
    (bound : ℕ) (test : ℕ → Bool) (x : ℕ) → all_below bound test ≡ true → x < bound → test x ≡ true
unfolding all_below
all_below_sound (suc bound) test x passed below =
    ground (arith, passed, below, all_below_sound bound test x)
all_below_sound zero test x passed below = absurd (omega (arith, below))

-- How the native operations work, one binary digit at a time; `digits` counts down the digits left.
module _ (last : ℕ → ℕ) (one_digit : ℕ → ℕ → ℕ) where
  no_digits_left : (count b : ℕ) → digits last one_digit count 0 b ≡ last b
  no_digits_left zero b = refl
  no_digits_left (suc count) b = refl

  -- A larger count makes no difference.
  spare_count :
      (count more a b : ℕ)
      → a ≤ count
      → count ≤ more
      → digits last one_digit more a b ≡ digits last one_digit count a b
  spare_count count more zero b enough spare = no_digits_left more b ∙ sym (no_digits_left count b)
  spare_count (suc count) (suc more) (suc a) b enough spare =
      ap (λ (high : ℕ). high * 2 + one_digit (suc a % 2) (b % 2))
        (spare_count count more (suc a / 2) (b / 2) (omega (arith, enough)) (omega (arith, spare)))
  spare_count zero more (suc a) b enough spare = absurd (omega arith)
  spare_count (suc count) zero (suc a) b enough spare = absurd (omega arith)

  lowest_digit :
      (a b : ℕ)
      → let half = suc a / 2 in
        bitwise last one_digit (suc a) b
        ≡ bitwise last one_digit half (b / 2) * 2 + one_digit (suc a % 2) (b % 2)
  lowest_digit a b =
      let half = suc a / 2 in
      ap (λ (high : ℕ). high * 2 + one_digit (suc a % 2) (b % 2))
        (spare_count half a half (b / 2) (omega arith) (omega arith))

-- The larger of the lowest digits.
pub bit_or_step : (a b : ℕ) → bit_or a b ≡ bit_or (a / 2) (b / 2) * 2 + max (a % 2) (b % 2)
bit_or_step = by_digit
  where
    by_digit : (a b : ℕ) → bit_or a b ≡ bit_or (a / 2) (b / 2) * 2 + max (a % 2) (b % 2)
    by_digit (suc a) b =
        bit_or-bitwise (suc a) b
        ∙ lowest_digit (λ rest. rest) max a b
        ∙ ap (λ (high : ℕ). high * 2 + max (suc a % 2) (b % 2))
            (sym (bit_or-bitwise (suc a / 2) (b / 2)))
    by_digit zero b = omega (arith, bit_or-bitwise 0 b, bit_or-bitwise 0 (b / 2))

-- The smaller of the lowest digits.
pub bit_and_step : (a b : ℕ) → bit_and a b ≡ bit_and (a / 2) (b / 2) * 2 + min (a % 2) (b % 2)
bit_and_step = by_digit
  where
    by_digit : (a b : ℕ) → bit_and a b ≡ bit_and (a / 2) (b / 2) * 2 + min (a % 2) (b % 2)
    by_digit (suc a) b =
        bit_and-bitwise (suc a) b
        ∙ lowest_digit (λ _. 0) min a b
        ∙ ap (λ (high : ℕ). high * 2 + min (suc a % 2) (b % 2))
            (sym (bit_and-bitwise (suc a / 2) (b / 2)))
    by_digit zero b = omega (arith, bit_and-bitwise 0 b, bit_and-bitwise 0 (b / 2))

-- Bit `k` of a number.
abbrev pub bit : ℕ → ℕ → ℕ
bit zero a = a % 2
bit (suc k) a = bit k (a / 2)

pub bit-bit_and : (k a b : ℕ) → bit k (bit_and a b) ≡ min (bit k a) (bit k b)
bit-bit_and zero a b = omega (arith, bit_and_step a b)
bit-bit_and (suc k) a b = rw (half a b) (bit-bit_and k (a / 2) (b / 2))
  where
    half : (a b : ℕ) → bit_and a b / 2 ≡ bit_and (a / 2) (b / 2)
    half a b = omega (arith, bit_and_step a b)

pub bit-bit_or : (k a b : ℕ) → bit k (bit_or a b) ≡ max (bit k a) (bit k b)
bit-bit_or zero a b = omega (arith, bit_or_step a b)
bit-bit_or (suc k) a b = rw (half a b) (bit-bit_or k (a / 2) (b / 2))
  where
    half : (a b : ℕ) → bit_or a b / 2 ≡ bit_or (a / 2) (b / 2)
    half a b = omega (arith, bit_or_step a b)

pub bit-le_one : (k a : ℕ) → bit k a ≤ 1
bit-le_one zero a = omega arith
bit-le_one (suc k) a = bit-le_one k (a / 2)

-- An empty mask lets nothing through.
pub bit_and-zero : (a : ℕ) → bit_and a 0 ≡ 0
bit_and-zero a = bit_and-bitwise a 0 ∙ nothing a a
  where
    nothing : (count a : ℕ) → digits (λ _. 0) min count a 0 ≡ 0
    nothing (suc count) (suc a) = omega (arith, nothing count (suc a / 2))
    nothing (suc count) zero = refl
    nothing zero a = refl

pub bit_and-one : (a : ℕ) → bit_and a 1 ≡ a % 2
bit_and-one a = omega (arith, bit_and-zero (a / 2), bit_and_step a 1)

pub zero-bit_and : (b : ℕ) → bit_and 0 b ≡ 0
zero-bit_and b = bit_and-bitwise 0 b
