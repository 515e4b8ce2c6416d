-- ===== src/Common/Bits/Bit.antt =====
-- One bit of a number.
use Prim.Native.Nat.{ℕ, zero, suc, ◌*◌, ◌/◌, ◌%◌, ◌^◌, ◌≤◌}
use mathlib.Core.Path.{◌≡◌, ◌∙◌, ap}
use native.Mathlib.Nat.{div-div-eq-div-mul, pow-succ'}
use native.Mathlib.Omega.{arith}

-- The value of bit `i`.
unfoldable pub bit : ℕ → ℕ → ℕ
bit a i = a / 2 ^ i % 2

pub bit_low : (a : ℕ) → bit a 0 ≡ a % 2
unfolding bit
bit_low a = omega arith

pub bit-suc : (a i : ℕ) → bit a (suc i) ≡ bit (a / 2) i
unfolding bit
bit-suc a i = ap (λ (t : ℕ). t % 2) (ap (λ (t : ℕ). a / t) (pow-succ' 2 i) ∙ half)
  where
    half : a / (2 * 2 ^ i) ≡ a / 2 / 2 ^ i
    half = omega (arith, div-div-eq-div-mul a 2 (2 ^ i))

pub bit-le-one : (a i : ℕ) → bit a i ≤ 1
unfolding bit
bit-le-one a i = omega arith

pub bit-of_zero : (i : ℕ) → bit 0 i ≡ 0
bit-of_zero zero = bit_low 0
bit-of_zero (suc i) = bit-suc 0 i ∙ bit-of_zero i
