-- ===== src/Prelude/Bits.antt =====
-- Bit masks: `m & b != 0` as a test, single bits, and how `|` and `&` act on both.
use Prim.Native.Nat.{
  ℕ, zero, suc, ◌+◌, ◌*◌, ◌/◌, ◌%◌, ◌^◌, ◌≤◌, min, max, bit_and, bit_or, digits, bitwise,
  bit_and-bitwise, bit_or-bitwise,
}
use mathlib.Core.Path.{◌≡◌, refl}
use mathlib.Core.Bool.{Bool, ◌&&◌, ◌||◌, not}
use native.Mathlib.Omega.{arith}
use native.Mathlib.Nat.{pow-suc, le_refl}
use lictor.Prelude.Tests.{◌==◌}

-- `m & b != 0`.
abbrev pub has : ℕ → ℕ → Bool
has m b = not (bit_and m b == 0)

-- Bit k of m.
pub test_bit : ℕ → ℕ → Bool
test_bit zero m = m % 2 == 1
test_bit (suc k) m = test_bit k (m / 2)

-- The native operations stand for a recursion on binary digits whose fuel is the first number:
-- any fuel that the number does not exceed gives the same.
module _ (keep : ℕ → ℕ) (combine : ℕ → ℕ → ℕ) where
  any_fuel :
      (fuel more x y : ℕ)
      → x ≤ fuel
      → x ≤ more
      → digits keep combine more x y ≡ digits keep combine fuel x y
  any_fuel (suc fuel) (suc more) (suc x) y below within =
      rw (any_fuel fuel more (suc x / 2) (y / 2) (omega arith) (omega arith))
  any_fuel (suc fuel) (suc more) zero y below within = refl
  any_fuel (suc fuel) zero (suc x) y below within = absurd (omega arith)
  any_fuel zero (suc more) (suc x) y below within = absurd (omega arith)
  any_fuel (suc fuel) zero zero y below within = refl
  any_fuel zero (suc more) zero y below within = refl
  any_fuel zero zero x y below within = refl

  bitwise-lowest :
      (x y : ℕ)
      → bitwise keep combine (suc x) y
        ≡ combine (suc x % 2) (y % 2) + 2 * bitwise keep combine (suc x / 2) (y / 2)
  bitwise-lowest x y =
      let half = suc x / 2 in
      omega (arith, any_fuel half x half (y / 2) (omega arith) (omega arith))

pub bit_or_halve : (a b : ℕ) → bit_or a b ≡ max (a % 2) (b % 2) + 2 * bit_or (a / 2) (b / 2)
bit_or_halve (suc a) b = simp bit_or-bitwise (bitwise-lowest (λ y. y) max a b)
bit_or_halve zero b = simp bit_or-bitwise (omega arith)

pub bit_and_halve : (a b : ℕ) → bit_and a b ≡ min (a % 2) (b % 2) + 2 * bit_and (a / 2) (b / 2)
bit_and_halve (suc a) b = simp bit_and-bitwise (bitwise-lowest (λ y. 0) min a b)
bit_and_halve zero b = simp bit_and-bitwise (omega arith)

half_or : (a b : ℕ) → bit_or a b / 2 ≡ bit_or (a / 2) (b / 2)
half_or a b = omega (arith, bit_or_halve a b)

half_and : (a b : ℕ) → bit_and a b / 2 ≡ bit_and (a / 2) (b / 2)
half_and a b = omega (arith, bit_and_halve a b)

pub test_bit-bit_or : (k a b : ℕ) → test_bit k (bit_or a b) ≡ (test_bit k a || test_bit k b)
unfolding test_bit
test_bit-bit_or zero a b = ground (arith, bit_or_halve a b)
test_bit-bit_or (suc k) a b = rw (half_or a b) (test_bit-bit_or k (a / 2) (b / 2))

pub test_bit-bit_and : (k a b : ℕ) → test_bit k (bit_and a b) ≡ (test_bit k a && test_bit k b)
unfolding test_bit
test_bit-bit_and zero a b = ground (arith, bit_and_halve a b)
test_bit-bit_and (suc k) a b = rw (half_and a b) (test_bit-bit_and k (a / 2) (b / 2))

no_bits_below : (bound m : ℕ) → m ≤ bound → bit_and m 0 ≡ 0
no_bits_below bound zero h = refl
no_bits_below (suc bound) (suc m) h =
    omega (arith, no_bits_below bound (suc m / 2) (omega arith), bit_and_halve (suc m) 0)
no_bits_below zero (suc m) h = absurd (omega arith)

pub bit_and-zero : (m : ℕ) → bit_and m 0 ≡ 0
bit_and-zero m = no_bits_below m m (le_refl m)

has-halve : (m b : ℕ) → has m b ≡ ((m % 2 == 1) && (b % 2 == 1) || has (m / 2) (b / 2))
has-halve m b = ground (arith, bit_and_halve m b)

-- A test against one bit reads that bit.
pub has-pow : (k m : ℕ) → has m (2 ^ k) ≡ test_bit k m
unfolding test_bit
has-pow zero m = ground (arith, bit_and_halve m 1, bit_and-zero (m / 2))
has-pow (suc k) m = ground (arith, has-halve m (2 ^ suc k), pow-suc 2 k, has-pow k (m / 2))

nothing_shared : (m : ℕ) → bit_and 0 m ≡ 0
nothing_shared m = bit_and-bitwise 0 m

-- A test against a union of masks is the union of the tests.
has-bit_or_below : (n m a b : ℕ) → m ≤ n → has m (bit_or a b) ≡ (has m a || has m b)
has-bit_or_below n zero a b h =
    ground (arith, nothing_shared (bit_or a b), nothing_shared a, nothing_shared b)
has-bit_or_below zero (suc m) a b h = absurd (omega arith)
has-bit_or_below (suc n) (suc m) a b h = ground (
  arith,
  has-halve (suc m) (bit_or a b),
  has-halve (suc m) a,
  has-halve (suc m) b,
  half_or a b,
  bit_or_halve a b,
  has-bit_or_below n (suc m / 2) (a / 2) (b / 2) (omega arith),
)

pub has-bit_or : (m a b : ℕ) → has m (bit_or a b) ≡ (has m a || has m b)
has-bit_or m a b = has-bit_or_below m m a b (le_refl m)

-- A union of masks is tested by any mask as its parts are.
pub bit_or-has : (k a b : ℕ) → has (bit_or a b) (2 ^ k) ≡ (has a (2 ^ k) || has b (2 ^ k))
bit_or-has k a b = rw (has-pow k (bit_or a b), has-pow k a, has-pow k b) (test_bit-bit_or k a b)
