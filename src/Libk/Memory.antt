-- ===== src/Libk/Memory.antt =====
-- kernel/libk/memory.c, and the alignment of kernel/libk/math.c. A memory gives the byte at each
-- address.
use osext.Common.{ℕ, zero, suc, ◌+◌, ◌*◌, ◌/◌, ◌%◌, ◌^◌, ltb, ◌==◌, if◌then◌else◌}
use osext.Common.Words.{add32}

unfoldable pub store : ℕ → ℕ → (ℕ → ℕ) → ℕ → ℕ
store p v mem q = if q == p then v else mem q

-- `n` rounds of the loop are left, from the address on.
unfoldable pub k_memset : (str c n : ℕ) → (ℕ → ℕ) → ℕ → ℕ
k_memset str c zero mem = mem
k_memset str c (suc n) mem = k_memset (str + 1) c n (store str (c % 2 ^ 8) mem)

unfoldable pub k_memcpy : (str1 str2 n : ℕ) → (ℕ → ℕ) → ℕ → ℕ
k_memcpy str1 str2 zero mem = mem
k_memcpy str1 str2 (suc n) mem = k_memcpy (str1 + 1) (str2 + 1) n (store str1 (mem str2) mem)

-- The return values -1, 0 and 1.
pub data Order : Type 0 where
  less : Order
  equal : Order
  greater : Order

unfoldable pub k_memcmp : (str1 str2 n : ℕ) → (ℕ → ℕ) → Order
k_memcmp str1 str2 zero mem = equal
k_memcmp str1 str2 (suc n) mem =
    let rest = k_memcmp (str1 + 1) (str2 + 1) n mem in
    if mem str1 == mem str2 then rest else if ltb (mem str1) (mem str2) then less else greater

unfoldable pub make_4_byte_aligned : ℕ → ℕ
make_4_byte_aligned p = if p % 4 == 0 then p else add32 (p / 4 * 4) 4

unfoldable pub make_1k_aligned : ℕ → ℕ
make_1k_aligned p = if p % 1024 == 0 then p / 1024 * 1024 else add32 (p / 1024 * 1024) 1024
