-- ===== src/Libk/MemoryLaws.antt =====
-- The bytes behind `k_memset` and `k_memcpy`, the order of `k_memcmp`, and the alignment.
use osext.Common.{
  ℕ, zero, suc, ◌+◌, ◌-◌, ◌%◌, ◌^◌, ◌≤◌, ◌<◌, ltb, leb, ◌&&◌, if◌then◌else◌, ◌≡◌, arith, ap, ◌∙◌,
  ◌⊎◌,
}
use osext.Libk.Memory.{store, k_memset, k_memcpy, equal, k_memcmp, make_1k_aligned}

-- k_memset writes the low byte of its value to the bytes of the area and to no other.
pub k_memset_lem :
    (str c n : ℕ) (mem : ℕ → ℕ) (q : ℕ)
    → k_memset str c n mem q ≡ (if leb str q && ltb q (str + n) then c % 2 ^ 8 else mem q)
unfolding k_memset store
k_memset_lem str c zero mem q = ground arith
k_memset_lem str c (suc n) mem q =
    k_memset_lem (str + 1) c n (store str (c % 2 ^ 8) mem) q ∙ ground arith

-- k_memcpy, from an area to one that does not begin inside it, gives every byte of the target the
-- byte that the source had before the call, and changes no other byte.
pub k_memcpy_lem :
    (str1 str2 n : ℕ) (mem : ℕ → ℕ) (q : ℕ)
    → (str1 ≤ str2) ⊎ (str2 + n ≤ str1)
    → k_memcpy str1 str2 n mem q
      ≡ (if leb str1 q && ltb q (str1 + n) then mem (str2 + (q - str1)) else mem q)
unfolding k_memcpy store
k_memcpy_lem str1 str2 zero mem q h = ground arith
k_memcpy_lem str1 str2 (suc n) mem q h =
    k_memcpy_lem (str1 + 1) (str2 + 1) n (store str1 (mem str2) mem) q (ground arith) ∙ grind arith

rest_equal :
    (str1 str2 n : ℕ) (mem : ℕ → ℕ)
    → k_memcmp str1 str2 (suc n) mem ≡ equal
    → k_memcmp (str1 + 1) (str2 + 1) n mem ≡ equal
unfolding k_memcmp
rest_equal str1 str2 n mem e = ground (arith, e)

-- When k_memcmp returns 0, the two areas agree.
pub k_memcmp-equal :
    (str1 str2 n : ℕ) (mem : ℕ → ℕ)
    → k_memcmp str1 str2 n mem ≡ equal
    → (i : ℕ) → i < n
    → mem (str1 + i) ≡ mem (str2 + i)
unfolding k_memcmp
k_memcmp-equal str1 str2 zero mem e i h = absurd (omega (arith, h))
k_memcmp-equal str1 str2 (suc n) mem e zero h = grind arith
k_memcmp-equal str1 str2 (suc n) mem e (suc i) h =
    let r =
      k_memcmp-equal (str1 + 1) (str2 + 1) n mem (rest_equal str1 str2 n mem e) i
        (omega (arith, h)) in
    ap mem (omega arith) ∙ r ∙ ap mem (omega arith)

-- make1KAligned gives the least multiple of 1024 from the address on, for an address at least 1024
-- below the end of the address space.
pub make_1k_aligned_lem :
    (p : ℕ)
    → p + 1024 ≤ 2 ^ 32
    → (make_1k_aligned p % 1024 ≡ 0) × (p ≤ make_1k_aligned p) × (make_1k_aligned p < p + 1024)
unfolding make_1k_aligned
make_1k_aligned_lem p h = ground arith
