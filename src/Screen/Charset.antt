-- ===== src/Screen/Charset.antt =====
-- The character set: `charset_ascii` gives a byte for each index below 1600.
use osext.Common.{ℕ, ◌+◌, ◌*◌, ◌/◌, ◌%◌, ◌^◌, Bool, false, ◌==◌, ltb, if◌then◌else◌}
use osext.Common.Words.{add32}

unfoldable pub is_ascii_pixel : (charset_ascii : ℕ → ℕ) → (x y index : ℕ) → Bool
is_ascii_pixel charset_ascii x y index =
    let bitoffset = (index * 10 * 10 + 10 * y + x) % 2 ^ 32 in
    let byteoffset = bitoffset / 8 in
    if ltb byteoffset 1600 then charset_ascii byteoffset / 2 ^ (bitoffset % 8) % 2 == 1 else false

unfoldable pub is_digit_pixel : (charset_ascii : ℕ → ℕ) → (x y digit : ℕ) → Bool
is_digit_pixel charset_ascii x y digit = is_ascii_pixel charset_ascii x y (add32 digit 48)

-- `character` is of type `uint8_t`.
unfoldable pub is_char_pixel : (charset_ascii : ℕ → ℕ) → (x y character : ℕ) → Bool
is_char_pixel charset_ascii x y character =
    is_ascii_pixel charset_ascii x y (character % 2 ^ 8 + 97)
