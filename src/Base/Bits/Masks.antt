-- ===== src/Base/Bits/Masks.antt =====
-- Masks: a single bit, a run of low bits, a run of high bits.
use native.Mathlib.Nat.{pow-suc, one-le-pow}
use mathlib.Core.Path.{◌≡◌, refl}
use Prim.Native.Nat.{ℕ, zero, suc, ◌+◌, ◌-◌, ◌*◌, ◌/◌, ◌^◌, ◌<◌, bit_and}
use native.Mathlib.Omega.{arith}
use sgx_sdk_rs.Base.Tests.{◌==◌, if◌then◌else◌}
use sgx_sdk_rs.Base.Bits.{bit, bit_and_step, bit_and-zero, bit_and-one}

-- A mask of one bit reads that bit.
pub bit_and-pow : (k a : ℕ) → bit_and a (2 ^ k) ≡ bit k a * 2 ^ k
bit_and-pow zero a = omega (arith, bit_and-one a)
bit_and-pow (suc k) a = ground (
  arith,
  bit_and_step a (2 ^ suc k),
  pow-suc 2 k,
  bit_and-pow k (a / 2),
  twice (bit k (a / 2)) (2 ^ k),
)
  where
    twice : (x y : ℕ) → x * (2 * y) ≡ 2 * (x * y)
    twice x y = omega arith

bit-zero : (k : ℕ) → bit k 0 ≡ 0
bit-zero zero = refl
bit-zero (suc k) = bit-zero k

-- The bits of a power of two.
pub bit-pow : (k i : ℕ) → bit k (2 ^ i) ≡ (if i == k then 1 else 0)
bit-pow zero zero = refl
bit-pow zero (suc i) = ground (arith, pow-suc 2 i)
bit-pow (suc k) zero = ground (arith, bit-zero k)
bit-pow (suc k) (suc i) = rw (half i) (rw (bit-pow k i) (ground arith))
  where
    half : (i : ℕ) → 2 ^ suc i / 2 ≡ 2 ^ i
    half i = omega (arith, pow-suc 2 i)

-- A shifted mask sees what stands from bit `k` on.
pub bit_and-shifted :
    (k q r m : ℕ) → r < 2 ^ k → bit_and (q * 2 ^ k + r) (m * 2 ^ k) ≡ bit_and q m * 2 ^ k
bit_and-shifted zero q r m fits = ground arith
bit_and-shifted (suc k) q r m fits = ground (
  arith,
  bit_and_step (q * 2 ^ suc k + r) (m * 2 ^ suc k),
  double q (2 ^ k),
  double m (2 ^ k),
  double (bit_and q m) (2 ^ k),
  pow-suc 2 k,
  bit_and-shifted k q (r / 2) m (omega (arith, pow-suc 2 k)),
)
  where
    double : (x y : ℕ) → x * (2 * y) ≡ 2 * (x * y)
    double x y = omega arith

-- A number below `2 ^ m` passes the mask of the low `m` bits whole.
pub bit_and-low : (m a : ℕ) → a < 2 ^ m → bit_and a (2 ^ m - 1) ≡ a
bit_and-low zero a fits = ground (arith, bit_and-zero a)
bit_and-low (suc m) a fits = ground (
  arith,
  bit_and_step a (2 ^ suc m - 1),
  pow-suc 2 m,
  one-le-pow m 2,
  bit_and-low m (a / 2) (omega (arith, pow-suc 2 m)),
)
