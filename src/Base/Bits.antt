-- ===== src/Base/Bits.antt =====
-- `&` with a mask of low or of high ones, and `|` of disjoint fields, as arithmetic at every width.
use Prim.Native.Nat.{
  ℕ, zero, suc, ◌+◌, ◌-◌, ◌*◌, ◌/◌, ◌%◌, ◌^◌, ◌≤◌, ◌<◌, min, max, bit_and, bit_or, digits,
  bit_and-bitwise, bit_or-bitwise,
}
use mathlib.Core.Path.{◌≡◌, refl, ap}
use native.Mathlib.Nat.{pow-suc, one-le-pow}
use native.Mathlib.Omega.{arith}

-- The digit recursion that `bit_and` stands for; the fuel matters only below the number.
abbrev and_digits : ℕ → ℕ → ℕ → ℕ
and_digits = digits (λ y. zero) min

and_digits_enough : (f g a b : ℕ) → a ≤ f → a ≤ g → and_digits f a b ≡ and_digits g a b
and_digits_enough zero g zero b hf hg = elim g as (λ k. and_digits 0 0 b ≡ and_digits k 0 b) [
  | zero ↦ refl
  | suc k ↦ refl
]
and_digits_enough zero g (suc a) b hf hg = absurd (omega arith)
and_digits_enough (suc f) zero zero b hf hg = refl
and_digits_enough (suc f) (suc g) zero b hf hg = refl
and_digits_enough (suc f) zero (suc a) b hf hg = absurd (omega arith)
and_digits_enough (suc f) (suc g) (suc a) b hf hg =
    omega (arith, and_digits_enough f g (suc a / 2) (b / 2) (omega arith) (omega arith))

-- The lowest digit and the rest.
pub bit_and-halves : (a b : ℕ) → bit_and a b ≡ 2 * bit_and (a / 2) (b / 2) + min (a % 2) (b % 2)
bit_and-halves zero b = omega (arith, bit_and-bitwise 0 b, bit_and-bitwise 0 (b / 2))
bit_and-halves (suc a) b = omega (
  arith,
  bit_and-bitwise (suc a) b,
  bit_and-bitwise (suc a / 2) (b / 2),
  and_digits_enough a (suc a / 2) (suc a / 2) (b / 2) (omega arith) (omega arith),
)

bit_and-zero_below : (n a : ℕ) → a < n → bit_and a 0 ≡ 0
bit_and-zero_below zero a h = absurd (omega arith)
bit_and-zero_below (suc n) zero h = refl
bit_and-zero_below (suc n) (suc a) h =
    omega (arith, bit_and-halves (suc a) 0, bit_and-zero_below n (suc a / 2) (omega arith))

pub bit_and-zero : (a : ℕ) → bit_and a 0 ≡ 0
bit_and-zero a = bit_and-zero_below (suc a) a (omega arith)

double : (q k : ℕ) → q * 2 ^ suc k ≡ 2 * (q * 2 ^ k)
double q k = omega (arith, ap (λ (t : ℕ). q * t) (pow-suc 2 k))

-- A mask whose `k` lowest digits are 0 keeps the digits above them.
pub bit_and-shifted :
    (k q r m : ℕ) → r < 2 ^ k → bit_and (q * 2 ^ k + r) (m * 2 ^ k) ≡ bit_and q m * 2 ^ k
bit_and-shifted zero q r m h = ground arith
bit_and-shifted (suc k) q r m h = ground (
  arith,
  bit_and-halves (q * 2 ^ suc k + r) (m * 2 ^ suc k),
  double q k,
  double m k,
  double (bit_and q m) k,
  pow-suc 2 k,
  bit_and-shifted k q (r / 2) m (omega (arith, pow-suc 2 k)),
)

-- A mask of `k` low ones is the remainder by `2 ^ k`.
pub bit_and-low : (k q r : ℕ) → r < 2 ^ k → bit_and (q * 2 ^ k + r) (2 ^ k - 1) ≡ r
bit_and-low zero q r h = ground (arith, bit_and-zero (q * 1 + r))
bit_and-low (suc k) q r h = ground (
  arith,
  bit_and-halves (q * 2 ^ suc k + r) (2 ^ suc k - 1),
  double q k,
  pow-suc 2 k,
  one-le-pow k 2,
  bit_and-low k q (r / 2) (omega (arith, pow-suc 2 k)),
)

pub bit_and-one : (a : ℕ) → bit_and a 1 ≡ a % 2
bit_and-one a = omega (arith, bit_and-halves a 1, bit_and-zero (a / 2))

-- The remainder by a power of two, and the digits above it, by the two masks.
pub bit_and-low_mask : (k a : ℕ) → bit_and a (2 ^ k - 1) ≡ a % 2 ^ k
bit_and-low_mask k a = ground (arith, one-le-pow k 2, bit_and-low k (a / 2 ^ k) (a % 2 ^ k))

pub bit_and-high_mask : (k m a : ℕ) → bit_and a ((2 ^ m - 1) * 2 ^ k) ≡ a / 2 ^ k % 2 ^ m * 2 ^ k
bit_and-high_mask k m a = ground (
  arith,
  one-le-pow k 2,
  bit_and-shifted k (a / 2 ^ k) (a % 2 ^ k) (2 ^ m - 1),
  bit_and-low_mask m (a / 2 ^ k),
)

-- The test of one bit.
pub bit_and-bit : (k a : ℕ) → bit_and a (2 ^ k) ≡ a / 2 ^ k % 2 * 2 ^ k
bit_and-bit k a =
    ground
      (arith, one-le-pow k 2, bit_and-shifted k (a / 2 ^ k) (a % 2 ^ k) 1, bit_and-one (a / 2 ^ k))

abbrev or_digits : ℕ → ℕ → ℕ → ℕ
or_digits = digits (λ y. y) max

or_digits_enough : (f g a b : ℕ) → a ≤ f → a ≤ g → or_digits f a b ≡ or_digits g a b
or_digits_enough zero g zero b hf hg = elim g as (λ k. or_digits 0 0 b ≡ or_digits k 0 b) [
  | zero ↦ refl
  | suc k ↦ refl
]
or_digits_enough zero g (suc a) b hf hg = absurd (omega arith)
or_digits_enough (suc f) zero zero b hf hg = refl
or_digits_enough (suc f) (suc g) zero b hf hg = refl
or_digits_enough (suc f) zero (suc a) b hf hg = absurd (omega arith)
or_digits_enough (suc f) (suc g) (suc a) b hf hg =
    omega (arith, or_digits_enough f g (suc a / 2) (b / 2) (omega arith) (omega arith))

pub bit_or-halves : (a b : ℕ) → bit_or a b ≡ 2 * bit_or (a / 2) (b / 2) + max (a % 2) (b % 2)
bit_or-halves zero b = omega (arith, bit_or-bitwise 0 b, bit_or-bitwise 0 (b / 2))
bit_or-halves (suc a) b = omega (
  arith,
  bit_or-bitwise (suc a) b,
  bit_or-bitwise (suc a / 2) (b / 2),
  or_digits_enough a (suc a / 2) (suc a / 2) (b / 2) (omega arith) (omega arith),
)

bit_or-zero_below : (n a : ℕ) → a < n → bit_or a 0 ≡ a
bit_or-zero_below zero a h = absurd (omega arith)
bit_or-zero_below (suc n) zero h = refl
bit_or-zero_below (suc n) (suc a) h =
    omega (arith, bit_or-halves (suc a) 0, bit_or-zero_below n (suc a / 2) (omega arith))

-- A field shifted above `r` joins it by addition.
pub bit_or-disjoint : (k q r : ℕ) → r < 2 ^ k → bit_or (q * 2 ^ k) r ≡ q * 2 ^ k + r
bit_or-disjoint zero q r h = ground (arith, bit_or-zero_below (suc q) q)
bit_or-disjoint (suc k) q r h = ground (
  arith,
  bit_or-halves (q * 2 ^ suc k) r,
  double q k,
  pow-suc 2 k,
  bit_or-disjoint k q (r / 2) (omega (arith, pow-suc 2 k)),
)
