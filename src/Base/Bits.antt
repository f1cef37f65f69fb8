-- ===== src/Base/Bits.antt =====
-- C's `|` on unsigned numbers: the law for the lowest digit, and fields that do not overlap.
use Prim.Native.Nat.{
  ℕ, zero, suc, ◌+◌, ◌*◌, ◌/◌, ◌%◌, ◌≤◌, ◌<◌, bit_or, bit_or-bitwise, digits, max,
}
use mathlib.Core.Path.{◌≡◌, refl}
use native.Mathlib.Omega.{arith}

abbrev or_digits : ℕ → ℕ → ℕ → ℕ
or_digits n a b = digits (λ c. c) max n a b

or_digits-enough : (n m a b : ℕ) → a ≤ n → a ≤ m → or_digits n a b ≡ or_digits m a b
or_digits-enough zero zero a b p q = refl
or_digits-enough zero (suc m) zero b p q = refl
or_digits-enough zero (suc m) (suc a) b p q = absurd (omega arith)
or_digits-enough (suc n) zero zero b p q = refl
or_digits-enough (suc n) zero (suc a) b p q = absurd (omega arith)
or_digits-enough (suc n) (suc m) zero b p q = refl
or_digits-enough (suc n) (suc m) (suc a) b p q =
    omega (arith, or_digits-enough n m (suc a / 2) (b / 2) (omega arith) (omega arith))

zero-bit_or : (b : ℕ) → bit_or 0 b ≡ b
zero-bit_or b = bit_or-bitwise 0 b

pub bit_or-halves : (a b : ℕ) → bit_or a b ≡ bit_or (a / 2) (b / 2) * 2 + max (a % 2) (b % 2)
bit_or-halves zero b = omega (arith, zero-bit_or b, zero-bit_or (b / 2))
bit_or-halves (suc a) b = omega (
  arith,
  bit_or-bitwise (suc a) b,
  bit_or-bitwise (suc a / 2) (b / 2),
  or_digits-enough a (suc a / 2) (suc a / 2) (b / 2) (omega arith) (omega arith),
)

-- `n` binary digits at a time: the number above them and the digits themselves.
pub or_low : (a b : ℕ) → bit_or a b % 2 ≡ max (a % 2) (b % 2)
or_low a b = omega (arith, bit_or-halves a b)

pub or_high : (a b : ℕ) → bit_or a b / 2 ≡ bit_or (a / 2) (b / 2)
or_high a b = omega (arith, bit_or-halves a b)

bit_or-zero-below : (n a : ℕ) → a ≤ n → bit_or a 0 ≡ a
bit_or-zero-below n zero h = refl
bit_or-zero-below zero (suc a) h = absurd (omega arith)
bit_or-zero-below (suc n) (suc a) h =
    omega (arith, bit_or-halves (suc a) 0, bit_or-zero-below n (suc a / 2) (omega arith))

pub bit_or-zero : (a : ℕ) → bit_or a 0 ≡ a
bit_or-zero a = bit_or-zero-below a a (omega arith)

pub or_four : (a b : ℕ) → bit_or a b / 4 ≡ bit_or (a / 4) (b / 4)
or_four a b = ground (arith, or_high a b, or_high (a / 2) (b / 2))

or_low_four : (q r : ℕ) → bit_or (q * 4) r % 4 ≡ r % 4
or_low_four q r = ground (arith, or_low (q * 4) r, or_high (q * 4) r, or_low (q * 2) (r / 2))

or_two_digits : (q r : ℕ) → bit_or (q * 4) r ≡ bit_or q (r / 4) * 4 + r % 4
or_two_digits q r = ground (arith, or_four (q * 4) r, or_low_four q r)

or_four_digits : (q r : ℕ) → bit_or (q * 16) r ≡ bit_or q (r / 16) * 16 + r % 16
or_four_digits q r = ground (arith, or_two_digits (q * 4) r, or_two_digits q (r / 4))

or_eight_digits : (q r : ℕ) → bit_or (q * 256) r ≡ bit_or q (r / 256) * 256 + r % 256
or_eight_digits q r = ground (arith, or_four_digits (q * 16) r, or_four_digits q (r / 16))

-- A number of ten binary digits beside the number above them.
pub bit_or-fields : (q r : ℕ) → r < 1024 → bit_or (q * 1024) r ≡ q * 1024 + r
bit_or-fields q r h =
    ground (arith, or_eight_digits (q * 4) r, or_two_digits q (r / 256), bit_or-zero q)

pub or_sixteen : (a b : ℕ) → bit_or a b / 16 ≡ bit_or (a / 16) (b / 16)
or_sixteen a b = ground (arith, or_four a b, or_four (a / 4) (b / 4))

-- Numbers of ten binary digits stay such.
pub bit_or-lt : (a b : ℕ) → a < 1024 → b < 1024 → bit_or a b < 1024
bit_or-lt a b p q = ground (
  arith,
  or_sixteen a b,
  or_sixteen (a / 16) (b / 16),
  or_four (a / 256) (b / 256),
  zero-bit_or 0,
)

-- Twelve binary digits beside the number above them.
pub bit_or-page : (q r : ℕ) → r < 4096 → bit_or (q * 4096) r ≡ q * 4096 + r
bit_or-page q r h =
    ground (arith, or_eight_digits (q * 16) r, or_four_digits q (r / 256), bit_or-zero q)
