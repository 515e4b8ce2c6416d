-- ===== src/Common/Bits.antt =====
-- The bits of a number, and what `|`, `&`, `~` and a shifted one do to them.
mod Bit
mod Digits
unfoldable pub use Bit.*
use Digits.{bit-digits, digits_or-lt, digits_and-le, digits_and-one, digits_or-disjoint}
use Prim.Native.Nat.{
  ℕ, zero, suc, ◌+◌, ◌-◌, ◌*◌, ◌/◌, ◌%◌, ◌^◌, ◌≤◌, ◌<◌, min, max, bit_and, bit_or,
}
use mathlib.Core.Path.{◌≡◌, refl, ◌∙◌, ap}
use native.Mathlib.Nat.{two-pow-succ, pow-le-pow_right, div-div-eq-div-mul, pow-succ'}
use native.Mathlib.Omega.{arith}
use Prim.Native.Nat.{bit_and-bitwise, bit_or-bitwise}
use osext.Common.Tests.{◌==◌, if◌then◌else◌}

pub bit-bit_or : (a b i : ℕ) → bit (bit_or a b) i ≡ max (bit a i) (bit b i)
bit-bit_or a b i = simp bit_or-bitwise (
    bit-digits (λ y. y) max (λ x y p q. omega (arith, p, q)) (λ b i. omega (arith, bit-of_zero i)) a
      a b i (omega arith))

pub bit-bit_and : (a b i : ℕ) → bit (bit_and a b) i ≡ min (bit a i) (bit b i)
bit-bit_and a b i = simp bit_and-bitwise (
    bit-digits (λ y. 0) min (λ x y p q. omega (arith, p, q)) (λ b i. omega (arith, bit-of_zero i)) a
      a b i (omega arith))

pub bit_of_pow : (k i : ℕ) → bit (2 ^ k) i ≡ (if k == i then 1 else 0)
bit_of_pow zero zero = bit_low 1
bit_of_pow zero (suc i) = bit-suc 1 i ∙ bit-of_zero i ∙ ground arith
bit_of_pow (suc k) zero = ground (arith, bit_low (2 ^ suc k), two-pow-succ k)
bit_of_pow (suc k) (suc i) =
    bit-suc (2 ^ suc k) i ∙ ap (λ t. bit t i) half ∙ bit_of_pow k i ∙ ground arith
  where
    half : 2 ^ suc k / 2 ≡ 2 ^ k
    half = omega (arith, two-pow-succ k)

-- The complement within `w` bits.
pub bit-complement : (w x i : ℕ) → i < w → x < 2 ^ w → bit (2 ^ w - 1 - x) i ≡ 1 - bit x i
bit-complement zero x i h lt = absurd (omega arith)
bit-complement (suc w) x zero h lt =
    omega (arith, bit_low x, bit_low (2 ^ suc w - 1 - x), two-pow-succ w)
bit-complement (suc w) x (suc i) h lt =
    bit-suc (2 ^ suc w - 1 - x) i
    ∙ ap (λ t. bit t i) half
    ∙ bit-complement w (x / 2) i (omega arith) (omega (arith, two-pow-succ w))
    ∙ omega (arith, bit-suc x i)
  where
    half : (2 ^ suc w - 1 - x) / 2 ≡ 2 ^ w - 1 - x / 2
    half = omega (arith, two-pow-succ w)

pub bit_or-lt : (w a b : ℕ) → a < 2 ^ w → b < 2 ^ w → bit_or a b < 2 ^ w
bit_or-lt w a b p q = simp bit_or-bitwise (digits_or-lt a w a b p q)

pub bit_and-le : (w a b : ℕ) → a < 2 ^ w → bit_and a b ≤ a
bit_and-le w a b p = simp bit_and-bitwise (digits_and-le a a b)

-- A number below `2 ^ w` is its bits.
pub eq_of_bits : (w a b : ℕ) → a < 2 ^ w → b < 2 ^ w → ((i : ℕ) → i < w → bit a i ≡ bit b i) → a ≡ b
eq_of_bits zero a b p q h = omega arith
eq_of_bits (suc w) a b p q h = omega (
  arith,
  bit_low a,
  bit_low b,
  h 0 (omega arith),
  eq_of_bits w (a / 2) (b / 2) (omega (arith, two-pow-succ w)) (omega (arith, two-pow-succ w))
      (λ i lt. omega (arith, bit-suc a i, bit-suc b i, h (suc i) (omega arith))),
)

pub bit_and-one : (a : ℕ) → bit_and a 1 ≡ a % 2
bit_and-one a = simp bit_and-bitwise (digits_and-one a a (omega arith))

-- `__builtin_popcountll`: how many of the low `w` bits are one.
unfoldable pub popcount : ℕ → ℕ → ℕ
popcount zero a = 0
popcount (suc w) a = a % 2 + popcount w (a / 2)

pub two-pow-lt : (i : ℕ) → i < 64 → 2 ^ i < 2 ^ 64
two-pow-lt i h =
    omega (arith, pow-le-pow_right {n = 2} (omega arith) {i = i} {j = 63} (omega arith))

pub bit_or-disjoint : (w a y : ℕ) → a < 2 ^ w → bit_or a (y * 2 ^ w) ≡ a + y * 2 ^ w
bit_or-disjoint w a y p = simp bit_or-bitwise (digits_or-disjoint a w a y (omega arith) p)

-- The two lowest bits of a number.
pub mod_four : (a : ℕ) → a % 4 ≡ bit a 0 + 2 * bit a 1
mod_four a = omega (arith, bit_low a, bit-suc a 0, bit_low (a / 2))

pub bit_or-mod_four : (a b : ℕ) → b % 4 ≡ 0 → bit_or a b % 4 ≡ a % 4
bit_or-mod_four a b h =
    omega (arith, mod_four a, mod_four (bit_or a b), mod_four b, bit-bit_or a b 0, bit-bit_or a b 1)
