-- ===== src/Libk/Strings.antt =====
-- The comparisons of kernel/libk/string.c. A string gives its characters, which are unsigned, and
-- its end is the first that is 0.
use osext.Common.{ℕ, zero, suc, ◌+◌, ◌-◌, ◌%◌, ◌^◌, Bool, true, false, ◌||◌, ◌==◌, if◌then◌else◌}

-- `n` more characters may be counted before the maximum, from character `len` on.
unfoldable pub strlen_from : (ℕ → ℕ) → (n len : ℕ) → ℕ
strlen_from string zero len = len
strlen_from string (suc n) len =
    let rest = strlen_from string n (len + 1) in if string len == 0 then len else rest

unfoldable pub k_strlen : (ℕ → ℕ) → (max : ℕ) → ℕ
k_strlen string max = strlen_from string max 0

-- `count` is an `int32_t`, given by its 32 bits; `n` rounds are left, from character `i` on.
unfoldable pub strcmp_from : (s1 s2 : ℕ → ℕ) → (n i count : ℕ) → ℕ
strcmp_from s1 s2 zero i count = count
strcmp_from s1 s2 (suc n) i count =
    let rest = strcmp_from s1 s2 n (i + 1) ((count + s1 i + (2 ^ 32 - s2 i)) % 2 ^ 32) in
    if s1 i == 0 || s2 i == 0 then count else rest

unfoldable pub k_strcmp : (s1 s2 : ℕ → ℕ) → (max : ℕ) → ℕ
k_strcmp s1 s2 max = strcmp_from s1 s2 max 0 0

unfoldable pub streq_from : (s1 s2 : ℕ → ℕ) → (n i : ℕ) → Bool
streq_from s1 s2 zero i = true
streq_from s1 s2 (suc n) i =
    let rest = streq_from s1 s2 n (i + 1) in
    if s1 i == 0 || s2 i == 0 then true else if s1 i == s2 i then rest else false

unfoldable pub k_streq_len : (s1 s2 : ℕ → ℕ) → (max : ℕ) → Bool
k_streq_len s1 s2 max = streq_from s1 s2 max 0

unfoldable pub k_streq : (s1 s2 : ℕ → ℕ) → (max : ℕ) → Bool
k_streq s1 s2 max = if k_strlen s1 max == k_strlen s2 max then streq_from s1 s2 max 0 else false
