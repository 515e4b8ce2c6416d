-- ===== src/Libk/Numbers.antt =====
-- `k_pow` of kernel/libk/math.c, and `sprint_uint32_base_safe` and `sprint_uint64_base_safe` of
-- kernel/libk/string.c.
use osext.Common.{
  ℕ, zero, suc, ◌+◌, ◌-◌, ◌/◌, ◌%◌, ltb, leb, ◌==◌, ◌||◌, if◌then◌else◌, List, [], ◌∷◌, ◌++◌,
  length,
}
use osext.Common.Words.{mul32, sub32}

-- `n` rounds are left.
unfoldable pub pow_loop : (a n sum : ℕ) → ℕ
pow_loop a zero sum = sum
pow_loop a (suc n) sum = pow_loop a n (mul32 sum a)

unfoldable pub k_pow : (a b : ℕ) → ℕ
k_pow a b = if b == 0 then 1 else if b == 1 then a else pow_loop a (b - 1) a

-- `(tmp<10) ? 48+tmp : 97+tmp-10`
unfoldable pub digit_char : ℕ → ℕ
digit_char tmp = if ltb tmp 10 then 48 + tmp else 97 + tmp - 10

-- The characters in `buff`, from index 0 on. The loop ends with a digit above 15, too, and then the
-- character at its index is the 0 that `k_memset` wrote. The fuel bounds the digits.
unfoldable pub digits : (fuel a base : ℕ) → List ℕ
digits zero a base = []
digits (suc fuel) a base =
    let rest = digits fuel (a / base) base in
    if ltb 15 (a % base)
    then 0 ∷ []
    else if a / base == 0
    then digit_char (a % base) ∷ []
    else digit_char (a % base) ∷ rest

-- The characters are copied in reverse, until `length - 1` or 34 are copied; `h` are.
unfoldable pub copy_out : (length h : ℕ) → List ℕ → List ℕ
copy_out length h [] = []
copy_out length h (c ∷ cs) =
    let rest = copy_out length (h + 1) cs in
    if leb (sub32 length 1) h || leb 34 h then [] else c ∷ rest

unfoldable pub rev : List ℕ → List ℕ
rev [] = []
rev (c ∷ cs) = rev cs ++ (c ∷ [])

-- What is written to `string`; the return value is the number of characters.
unfoldable pub sprint_uint32_base_safe : (length a base : ℕ) → List ℕ
sprint_uint32_base_safe length a base = copy_out length 0 (rev (digits 32 a base))

unfoldable pub sprint_uint64_base_safe : (length a base : ℕ) → List ℕ
sprint_uint64_base_safe length a base = copy_out length 0 (rev (digits 64 a base))
