-- ===== src/Slab/Bits.antt =====
-- The array of used bits.
use osext.Common.{
  ℕ, zero, suc, ◌+◌, ◌-◌, ◌/◌, ◌%◌, ◌^◌, ◌≤◌, ◌<◌, true, ◌==◌, if◌then◌else◌, ◌≡◌, refl, arith, inl,
  inr, Bool-cases, List, [], ◌∷◌, none, some, length, bit_and, bit_or,
}
use native.Mathlib.Nat.{pow-le-pow_right}
use osext.Common.{get_or, set}
use osext.Common.Bits.{
  bit, bit-bit_or, bit-bit_and, bit_of_pow, bit-complement, bit-le-one, bit_and-one,
}
use osext.Slab.Objects.{is_used, mark_used, mark_unused, find_unused, all_zero}

two-pow-lt_byte : (k : ℕ) → k < 8 → 2 ^ k < 2 ^ 8
two-pow-lt_byte k h =
    omega (arith, pow-le-pow_right {n = 2} (omega arith) {i = k} {j = 7} (omega arith))

get_or-set :
    (xs : List ℕ) (i j v : ℕ)
    → i < length xs
    → get_or (set xs i v) j 0 ≡ (if i == j then v else get_or xs j 0)
get_or-set [] i j v h = absurd (omega arith)
get_or-set (x ∷ xs) zero zero v h = refl
get_or-set (x ∷ xs) zero (suc j) v h = ground arith
get_or-set (x ∷ xs) (suc i) zero v h = ground arith
get_or-set (x ∷ xs) (suc i) (suc j) v h = ground (arith, get_or-set xs i j v)

is_used_lem : (used : List ℕ) (i : ℕ) → is_used used i ≡ bit (get_or used (i / 8) 0) (i % 8)
unfolding is_used bit
is_used_lem used i = bit_and-one (get_or used (i / 8) 0 / 2 ^ (i % 8))

pub is_used-le-one : (used : List ℕ) (i : ℕ) → is_used used i ≤ 1
is_used-le-one used i =
    omega (arith, is_used_lem used i, bit-le-one (get_or used (i / 8) 0) (i % 8))

-- Marking one object changes its bit alone.
pub is_used-mark_used :
    (used : List ℕ) (i j : ℕ)
    → i / 8 < length used
    → is_used (mark_used used i) j ≡ (if i == j then 1 else is_used used j)
unfolding mark_used
is_used-mark_used used i j h =
    let b = get_or used (i / 8) 0 in
    rw
      (
        is_used_lem (set used (i / 8) (bit_or b (2 ^ (i % 8)))) j,
        get_or-set used (i / 8) (j / 8) (bit_or b (2 ^ (i % 8))) h,
      )
      (ground (
        arith,
        is_used_lem used j,
        bit-bit_or b (2 ^ (i % 8)) (j % 8),
        bit_of_pow (i % 8) (j % 8),
        bit-le-one b (j % 8),
      ))

pub is_used-mark_unused :
    (used : List ℕ) (i j : ℕ)
    → i / 8 < length used
    → is_used (mark_unused used i) j ≡ (if i == j then 0 else is_used used j)
unfolding mark_unused
is_used-mark_unused used i j h =
    let b = get_or used (i / 8) 0 in
    let m = 2 ^ 8 - 1 - 2 ^ (i % 8) in
    rw
      (
        is_used_lem (set used (i / 8) (bit_and b m)) j,
        get_or-set used (i / 8) (j / 8) (bit_and b m) h,
      )
      (ground (
        arith,
        is_used_lem used j,
        bit-bit_and b m (j % 8),
        bit-complement 8 (2 ^ (i % 8)) (j % 8) (omega arith)
            (two-pow-lt_byte (i % 8) (omega arith)),
        bit_of_pow (i % 8) (j % 8),
        bit-le-one b (j % 8),
      ))

-- What the search finds is the first clear bit.
pub found_unused :
    (used : List ℕ) (n i k : ℕ)
    → find_unused used n i ≡ some k
    → (i ≤ k) × (k < i + n) × (is_used used k ≡ 0) × ((j : ℕ) → i ≤ j → j < k → is_used used j ≡ 1)
unfolding find_unused
found_unused used zero i k h = absurd (let x : ⊥ = cc in x)
found_unused used (suc n) i k h = elim (Bool-cases (is_used used i == 0)) [
  | inl e ↦ ground arith
  | inr e ↦
      let r = found_unused used n (i + 1) k (rw e at h) in
      (
        omega (arith, r.0),
        omega (arith, r.1),
        r.2,
        λ j p q. elim (Bool-cases (i == j)) [
          | inl f ↦ ground (arith, is_used-le-one used i)
          | inr f ↦ r.3 j (ground arith) q
        ],
      )
]

pub none_unused :
    (used : List ℕ) (n i j : ℕ)
    → find_unused used n i ≡ none
    → i ≤ j
    → j < i + n
    → is_used used j ≡ 1
unfolding find_unused
none_unused used zero i j h p q = absurd (omega arith)
none_unused used (suc n) i j h p q =
    ground (arith, is_used-le-one used i, none_unused used n (i + 1) j)

pub all_zero_lem :
    (used : List ℕ) (n i : ℕ)
    → ((j : ℕ) → i ≤ j → j < i + n → get_or used j 0 ≡ 0)
    → all_zero used n i ≡ true
unfolding all_zero
all_zero_lem used zero i h = refl
all_zero_lem used (suc n) i h = ground (
  arith,
  h i (omega arith) (omega arith),
  all_zero_lem used n (i + 1) (λ j p q. h j (omega arith) (omega arith)),
)
