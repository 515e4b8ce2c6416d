-- ===== src/Physical/Words.antt =====
-- The bits of a pair of 64-bit words, and the page alignment.
use native.Mathlib.Nat.{mod-eq_of_lt}
use osext.Common.{
  ℕ, ◌+◌, ◌-◌, ◌/◌, ◌%◌, ◌^◌, ◌≤◌, ◌<◌, Bool, true, false, ltb, ◌==◌, if◌then◌else◌, ◌≡◌, arith,
  ◌∙◌, inl, inr, Bool-cases,
}
use osext.Common.Bits.{
  bit, bit-bit_or, bit-bit_and, bit_of_pow, bit-complement, bit_or-lt, bit_and-le, bit_and-one,
  bit-le-one, two-pow-lt, bit-of_zero,
}
use osext.Physical.{one_shl, write_bit, set_bit128, get_bit128, make_small_page_aligned}

-- A bit as the number that `getBit128` returns.
abbrev pub flag : Bool → ℕ
flag true = 1
flag false = 0

one_shl_lem : (i : ℕ) → i < 64 → one_shl i ≡ 2 ^ i
unfolding one_shl
one_shl_lem i h = mod-eq_of_lt (two-pow-lt i h)

one_shl-lt : (i : ℕ) → one_shl i < 2 ^ 64
unfolding one_shl
one_shl-lt i = omega arith

one_shl-bit : (i j : ℕ) → i ≤ 64 → j < 64 → bit (one_shl i) j ≡ (if i == j then 1 else 0)
unfolding one_shl
one_shl-bit i j hi hj = elim (Bool-cases (ltb i 64)) [
  | inl low ↦ rw (one_shl_lem i (ground arith)) (bit_of_pow i j)
  | inr high ↦ let e : i ≡ 64 = ground arith in rw e (bit-of_zero j ∙ ground arith)
]

-- Writing bit `i` of a 64-bit word changes that bit alone; writing bit 64 changes nothing.
write_bit-bit :
    (p i j : ℕ) (v : Bool)
    → p < 2 ^ 64
    → i ≤ 64
    → j < 64
    → bit (write_bit p i v) j ≡ (if i == j then flag v else bit p j)
unfolding write_bit
write_bit-bit p i j true hp hi hj =
    ground (arith, one_shl-bit i j hi hj, bit-bit_or p (one_shl i) j, bit-le-one p j)
write_bit-bit p i j false hp hi hj = ground (
  arith,
  bit-bit_and p (2 ^ 64 - 1 - one_shl i) j,
  bit-complement 64 (one_shl i) j hj (one_shl-lt i),
  one_shl-bit i j hi hj,
  bit-le-one p j,
)

pub write_bit-lt : (p i : ℕ) (v : Bool) → p < 2 ^ 64 → write_bit p i v < 2 ^ 64
unfolding write_bit one_shl
write_bit-lt p i true h = bit_or-lt 64 p (2 ^ i % 2 ^ 64) h (omega arith)
write_bit-lt p i false h = omega (arith, bit_and-le 64 p (2 ^ 64 - 1 - 2 ^ i % 2 ^ 64) h)

-- Bit `i` of the pair, as a number.
unfoldable pub bit128 : ℕ × ℕ → ℕ → ℕ
bit128 (a, b) i = if ltb i 64 then bit a i else bit b (i - 64)

pub get_bit128-bit128 : (w : ℕ × ℕ) (i : ℕ) → get_bit128 w i ≡ bit128 w i
unfolding get_bit128 bit128 bit
get_bit128-bit128 (a, b) i = ground (arith, bit_and-one (a / 2 ^ i), bit_and-one (b / 2 ^ (i - 64)))

pub get_bit128-le-one : (w : ℕ × ℕ) (i : ℕ) → get_bit128 w i ≤ 1
unfolding bit128
get_bit128-le-one (a, b) i =
    ground (arith, get_bit128-bit128 (a, b) i, bit-le-one a i, bit-le-one b (i - 64))

-- Both words hold 64 bits.
abbrev pub IsPair : ℕ × ℕ → Type 0
IsPair w = (w.0 < 2 ^ 64) × (w.1 < 2 ^ 64)

pub set_bit128-IsPair : (w : ℕ × ℕ) (i : ℕ) (v : Bool) → IsPair w → IsPair (set_bit128 w i v)
unfolding set_bit128
set_bit128-IsPair (a, b) i v h = elim (Bool-cases (ltb i 64)) [
  | inl low ↦ rw low (write_bit-lt a i v h.0, h.1)
  | inr high ↦ rw high (h.0, write_bit-lt b (i - 64) v h.1)
]

-- For two 64-bit words, reading an index below 128 after `setBit128` at an index up to 128 gives
-- the written value if the indices are equal, and the old one if they are not.
pub get_bit128-set_bit128 :
    (w : ℕ × ℕ) (i j : ℕ) (v : Bool)
    → IsPair w
    → i ≤ 128
    → j < 128
    → get_bit128 (set_bit128 w i v) j ≡ (if i == j then flag v else get_bit128 w j)
unfolding set_bit128 bit128
get_bit128-set_bit128 (a, b) i j v h hi hj = rw get_bit128-bit128 (
    rw get_bit128-bit128 (elim (Bool-cases (ltb i 64)) [
      | inl low ↦ elim (Bool-cases (ltb j 64)) [
        | inl low' ↦ rw (low, low') (write_bit-bit a i j v h.0 (ground arith) (ground arith))
        | inr high' ↦ rw (low, high') (ground arith)
      ]
      | inr high ↦ elim (Bool-cases (ltb j 64)) [
        | inl low' ↦ rw (high, low') (ground arith)
        | inr high' ↦
            rw (high, high')
              (write_bit-bit b (i - 64) (j - 64) v h.1 (ground arith) (ground arith) ∙ ground arith)
      ]
    ]))

-- `makeSmallPageAligned` gives the least multiple of the page size from the address on, if that
-- does not pass the end of the address space.
pub make_small_page_aligned_lem :
    (p : ℕ)
    → p + 0x1000 ≤ 2 ^ 32
    → (make_small_page_aligned p % 0x1000 ≡ 0)
      × (p ≤ make_small_page_aligned p)
      × (make_small_page_aligned p < p + 0x1000)
unfolding make_small_page_aligned
make_small_page_aligned_lem p h = ground arith
