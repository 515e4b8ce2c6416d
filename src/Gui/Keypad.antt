-- ===== src/Gui/Keypad.antt =====
-- kernel/drivers/keypad.c. A key is given by its index in `enum keycode`, and `keypad_data` by its
-- halfwords.
use osext.Common.{
  ℕ, zero, suc, ◌+◌, ◌*◌, ◌/◌, ◌%◌, ◌^◌, Bool, true, false, leb, ◌==◌, ◌||◌, ◌&&◌, not,
  if◌then◌else◌, List, [], ◌∷◌,
}

unfoldable pub elem_at : List ℕ → ℕ → ℕ
elem_at [] i = 0
elem_at (x ∷ xs) zero = x
elem_at (x ∷ xs) (suc i) = elem_at xs i

abbrev pub keycode_ascii : List ℕ
keycode_ascii =
    0 ∷ 10 ∷ 0 ∷ 32 ∷ 122 ∷ 121 ∷ 48 ∷ 63 ∷ 0 ∷ 120 ∷ 119 ∷ 118 ∷ 51 ∷ 117 ∷ 116 ∷ 115 ∷ 49 ∷ 0 ∷ 0
    ∷ 0 ∷ 114 ∷ 113 ∷ 112 ∷ 54 ∷ 111 ∷ 110 ∷ 109 ∷ 52 ∷ 0 ∷ 0 ∷ 108 ∷ 107 ∷ 106 ∷ 57 ∷ 105 ∷ 104
    ∷ 103 ∷ 55 ∷ 47 ∷ 0 ∷ 102 ∷ 101 ∷ 100 ∷ 99 ∷ 98 ∷ 97 ∷ 61 ∷ 42 ∷ 94 ∷ 0 ∷ 45 ∷ 41 ∷ 46 ∷ 40 ∷ 53
    ∷ 0 ∷ 0 ∷ 127 ∷ 0 ∷ 0 ∷ 43 ∷ 0 ∷ 50 ∷ 0 ∷ 56 ∷ 27 ∷ 0 ∷ 0 ∷ 0 ∷ 44 ∷ []

abbrev pub keymap_cas : List ℕ
keymap_cas =
    0 ∷ 1 ∷ 3 ∷ 4 ∷ 5 ∷ 6 ∷ 7 ∷ 8 ∷ 9 ∷ 16 ∷ 17 ∷ 18 ∷ 19 ∷ 20 ∷ 21 ∷ 22 ∷ 23 ∷ 24 ∷ 25 ∷ 26 ∷ 32
    ∷ 33 ∷ 34 ∷ 35 ∷ 36 ∷ 37 ∷ 38 ∷ 39 ∷ 40 ∷ 41 ∷ 48 ∷ 49 ∷ 50 ∷ 51 ∷ 52 ∷ 53 ∷ 54 ∷ 55 ∷ 56 ∷ 57
    ∷ 64 ∷ 65 ∷ 66 ∷ 68 ∷ 69 ∷ 70 ∷ 71 ∷ 72 ∷ 73 ∷ 81 ∷ 82 ∷ 83 ∷ 84 ∷ 85 ∷ 86 ∷ 87 ∷ 88 ∷ 89 ∷ 90
    ∷ 96 ∷ 98 ∷ 99 ∷ 100 ∷ 101 ∷ 102 ∷ 103 ∷ 105 ∷ 120 ∷ 121 ∷ 122 ∷ []

unfoldable pub is_key_pressed : (data_of : ℕ → ℕ) → (key : ℕ) → Bool
is_key_pressed data_of key =
    let bit = elem_at keymap_cas key in
    let uint32 = bit / 16 in
    if leb uint32 0x1f then not (data_of uint32 / 2 ^ (bit % 16) % 2 == 0) else false

-- KEY_RET, KEY_ENTER, KEY_MATH_MINUS, KEY_ON, KEY_PI, KEY_TRIG, KEY_TEN_POW, KEY_EE, KEY_SQUARED,
-- KEY_E_POW, KEY_VAR, KEY_CAT, KEY_FRAC, KEY_DEL, KEY_SCRATCH, KEY_FLAG, KEY_DOC, KEY_MENU,
-- KEY_ESCAPE, KEY_TAB, KEY_SHIFT and KEY_CTRL.
abbrev pub special_keys : List ℕ
special_keys =
    0 ∷ 1 ∷ 2 ∷ 8 ∷ 17 ∷ 18 ∷ 19 ∷ 28 ∷ 29 ∷ 39 ∷ 49 ∷ 55 ∷ 56 ∷ 57 ∷ 58 ∷ 59 ∷ 61 ∷ 63 ∷ 65 ∷ 66
    ∷ 67 ∷ 68 ∷ []

unfoldable pub is_one_of : ℕ → List ℕ → Bool
is_one_of key [] = false
is_one_of key (k ∷ ks) = key == k || is_one_of key ks

-- `n` rounds of the loop over the keys are left, from `i` on.
unfoldable pub alphanumeric_from : (data_of : ℕ → ℕ) → (n i : ℕ) → ℕ
alphanumeric_from data_of zero i = 0
alphanumeric_from data_of (suc n) i =
    let rest = alphanumeric_from data_of n (i + 1) in
    if not (is_one_of i special_keys) && is_key_pressed data_of i
    then elem_at keycode_ascii i
    else rest

unfoldable pub get_alphanumeric_key_pressed : (data_of : ℕ → ℕ) → ℕ
get_alphanumeric_key_pressed data_of = alphanumeric_from data_of 70 0

-- `n` words are left, from word `i` on.
unfoldable pub any_from : (data_of : ℕ → ℕ) → (n i : ℕ) → Bool
any_from data_of zero i = false
any_from data_of (suc n) i =
    let rest = any_from data_of n (i + 1) in
    if data_of (2 * i) + 2 ^ 16 * data_of (2 * i + 1) == 0 then rest else true

unfoldable pub any_key_pressed : (data_of : ℕ → ℕ) → Bool
any_key_pressed data_of = any_from data_of 8 0
