-- ===== src/Common/Bits/Digits.antt =====
-- The bits of what the native operations on binary digits give, for any count of digits that is
-- enough.
use Prim.Native.Nat.{ℕ, zero, suc, ◌+◌, ◌*◌, ◌/◌, ◌%◌, ◌^◌, ◌≤◌, ◌<◌, min, max, digits}
use mathlib.Core.Path.{◌≡◌, refl, sym, ◌∙◌, ap}
use native.Mathlib.Nat.{two-pow-succ, pow-suc}
use native.Mathlib.Omega.{arith}
use osext.Common.Bits.Bit.{bit, bit_low, bit-suc}

-- The number that begins with the bits of `d` and ends with the bit `c`.
bit-low_of : (d c : ℕ) → c ≤ 1 → bit (d * 2 + c) 0 ≡ c
bit-low_of d c h = omega (arith, h, bit_low (d * 2 + c))

bit-suc_of : (d c i : ℕ) → c ≤ 1 → bit (d * 2 + c) (suc i) ≡ bit d i
bit-suc_of d c i h = bit-suc (d * 2 + c) i ∙ ap (λ t. bit t i) (omega (arith, h))

-- An operation `f` on two digits, with `z` of the second number where the first has run out.
module _ (z : ℕ → ℕ) (f : ℕ → ℕ → ℕ) (small : (x y : ℕ) → x ≤ 1 → y ≤ 1 → f x y ≤ 1)
    (ended : (b i : ℕ) → bit (z b) i ≡ f (bit 0 i) (bit b i)) where
  pub bit-digits : (n a b i : ℕ) → a ≤ n → bit (digits z f n a b) i ≡ f (bit a i) (bit b i)
  bit-digits zero zero b i h = ended b i
  bit-digits zero (suc a) b i h = absurd (omega arith)
  bit-digits (suc n) zero b i h = ended b i
  bit-digits (suc n) (suc a) b zero h =
      bit-low_of (digits z f n (suc a / 2) (b / 2)) (f (suc a % 2) (b % 2)) (last a b)
      ∙ ap (λ x. f x (b % 2)) (sym (bit_low (suc a)))
      ∙ ap (f (bit (suc a) 0)) (sym (bit_low b))
    where
      last : (a b : ℕ) → f (suc a % 2) (b % 2) ≤ 1
      last a b = small (suc a % 2) (b % 2) (omega arith) (omega arith)
  bit-digits (suc n) (suc a) b (suc i) h =
      bit-suc_of (digits z f n (suc a / 2) (b / 2)) (f (suc a % 2) (b % 2)) i
        (small (suc a % 2) (b % 2) (omega arith) (omega arith))
      ∙ bit-digits n (suc a / 2) (b / 2) i (omega arith)
      ∙ ap (λ x. f x (bit (b / 2) i)) (sym (bit-suc (suc a) i))
      ∙ ap (f (bit (suc a) (suc i))) (sym (bit-suc b i))

pub digits_or-lt : (n w a b : ℕ) → a < 2 ^ w → b < 2 ^ w → digits (λ y. y) max n a b < 2 ^ w
digits_or-lt zero w a b p q = q
digits_or-lt (suc n) w zero b p q = q
digits_or-lt (suc n) zero (suc a) b p q = absurd (omega arith)
digits_or-lt (suc n) (suc w) (suc a) b p q = omega (
  arith,
  two-pow-succ w,
  digits_or-lt n w (suc a / 2) (b / 2) (omega (arith, two-pow-succ w))
      (omega (arith, two-pow-succ w)),
)

pub digits_and-le : (n a b : ℕ) → digits (λ _. 0) min n a b ≤ a
digits_and-le zero a b = omega arith
digits_and-le (suc n) zero b = omega arith
digits_and-le (suc n) (suc a) b = omega (arith, digits_and-le n (suc a / 2) (b / 2))

digits_and-zero : (n a : ℕ) → digits (λ _. 0) min n a 0 ≡ 0
digits_and-zero zero a = refl
digits_and-zero (suc n) zero = refl
digits_and-zero (suc n) (suc a) = omega (arith, digits_and-zero n (suc a / 2))

pub digits_and-one : (n a : ℕ) → a ≤ n → digits (λ _. 0) min n a 1 ≡ a % 2
digits_and-one zero a h = omega arith
digits_and-one (suc n) zero h = refl
digits_and-one (suc n) (suc a) h = omega (arith, digits_and-zero n (suc a / 2))

-- The two numbers have no bit in common.
pub digits_or-disjoint :
    (n w a y : ℕ) → a ≤ n → a < 2 ^ w → digits (λ b. b) max n a (y * 2 ^ w) ≡ a + y * 2 ^ w
digits_or-disjoint zero w a y h p = omega arith
digits_or-disjoint (suc n) w zero y h p = omega arith
digits_or-disjoint (suc n) zero (suc a) y h p = absurd (omega arith)
digits_or-disjoint (suc n) (suc w) (suc a) y h p =
    let half : y * 2 ^ suc w ≡ y * 2 ^ w * 2 = grind (arith, ap (λ t. y * t) (pow-suc 2 w)) in
    let rest = digits_or-disjoint n w (suc a / 2) y (omega arith) (omega (arith, two-pow-succ w)) in
    let q : y * 2 ^ suc w / 2 ≡ y * 2 ^ w = omega (arith, half) in
    omega (arith, half, rest, ap (λ t. digits (λ b. b) max n (suc a / 2) t) q)
