-- ===== src/Devices/Masks.antt =====
-- The bits of a register under the masks of the drivers.
use osext.Common.{
  ℕ, ◌-◌, ◌^◌, ◌<◌, Bool-cases, ◌==◌, min, max, inl, inr, bit_and, bit_or, ◌≡◌, arith,
}
use osext.Common.Bits.{
  bit, bit-bit_and, bit-bit_or, bit-complement, bit_of_pow, eq_of_bits, bit_or-lt, bit_and-le,
  bit-le-one,
}
use osext.Devices.Registers.{and_not}

pub bit-and_not :
    (x mask i : ℕ)
    → mask < 2 ^ 32
    → i < 32
    → bit (and_not x mask) i ≡ min (bit x i) (1 - bit mask i)
unfolding and_not
bit-and_not x mask i h lt =
    omega (arith, bit-bit_and x (2 ^ 32 - 1 - mask) i, bit-complement 32 mask i lt h)

pub and_not-lt : (x mask : ℕ) → x < 2 ^ 32 → and_not x mask < 2 ^ 32
unfolding and_not
and_not-lt x mask h = omega (arith, bit_and-le 32 x (2 ^ 32 - 1 - mask) h)

-- The bits of `mask` cleared and set again from the same word.
pub masked_parts :
    (c mask : ℕ) → c < 2 ^ 32 → mask < 2 ^ 32 → bit_or (and_not c mask) (bit_and c mask) ≡ c
masked_parts c mask h m =
    eq_of_bits 32 (bit_or (and_not c mask) (bit_and c mask)) c
      (bit_or-lt 32 (and_not c mask) (bit_and c mask) (and_not-lt c mask h)
        (omega (arith, bit_and-le 32 c mask h)))
      h
      (λ i lt. omega (
        arith,
        bit-bit_or (and_not c mask) (bit_and c mask) i,
        bit-and_not c mask i m lt,
        bit-bit_and c mask i,
        bit-le-one c i,
        bit-le-one mask i,
      ))

-- A field of a register: the bits of `mask` are replaced by `value`.
unfoldable pub with_field : (mask value c : ℕ) → ℕ
with_field mask value c = bit_or (and_not c mask) value

pub with_field-lt :
    (mask value c : ℕ) → value < 2 ^ 32 → c < 2 ^ 32 → with_field mask value c < 2 ^ 32
unfolding with_field
with_field-lt mask value c v h = bit_or-lt 32 (and_not c mask) value (and_not-lt c mask h) v

pub bit-with_field :
    (mask value c i : ℕ)
    → mask < 2 ^ 32
    → i < 32
    → bit (with_field mask value c) i ≡ max (min (bit c i) (1 - bit mask i)) (bit value i)
unfolding with_field
bit-with_field mask value c i m lt =
    omega (arith, bit-bit_or (and_not c mask) value i, bit-and_not c mask i m lt)

-- A field that leaves bit 7 alone can be changed with that bit cleared for the time of the change.
pub with_field-detour :
    (mask value c : ℕ)
    → mask < 2 ^ 32
    → value < 2 ^ 32
    → c < 2 ^ 32
    → bit mask 7 ≡ 0
    → bit c 7 ≡ 1
    → bit_or (with_field mask value (and_not c (2 ^ 7))) (2 ^ 7) ≡ with_field mask value c
with_field-detour mask value c m v h free on =
    eq_of_bits 32 (bit_or changed (2 ^ 7)) (with_field mask value c)
      (bit_or-lt 32 changed (2 ^ 7) (with_field-lt mask value off v (and_not-lt c (2 ^ 7) h))
        (omega arith))
      (with_field-lt mask value c v h) (λ i lt. detour i lt)
  where
    off : ℕ
    off = and_not c (2 ^ 7)

    changed : ℕ
    changed = with_field mask value off

    detour : (i : ℕ) → i < 32 → bit (bit_or changed (2 ^ 7)) i ≡ bit (with_field mask value c) i
    detour i lt =
        let seven : (i ≡ 7) → bit mask i ≡ 0 = λ e. rw e free in
        let one : (i ≡ 7) → bit c i ≡ 1 = λ e. rw e on in
        let x = bit-bit_or changed (2 ^ 7) i in
        let y = bit-with_field mask value off i m lt in
        let y' = bit-with_field mask value c i m lt in
        let z = bit-and_not c (2 ^ 7) i (omega arith) lt in
        let p = bit_of_pow 7 i in
        elim (Bool-cases (7 == i)) [
          | inl e ↦
              let n : i ≡ 7 = ground arith in
              let r = rw e at p in omega (arith, x, r, y, y', z, seven n, one n, bit-le-one value i)
          | inr e ↦
              let q = rw e at p in omega (arith, x, y, y', z, q, bit-le-one mask i, bit-le-one c i)
        ]
