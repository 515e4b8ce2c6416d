-- ===== src/Screen/Draw.antt =====
-- Drawing into a frame buffer, which gives the 16-bit word at each index. `hw_w` is the macro
-- `_HW_W`. Coordinates are 32-bit words, and so are the arguments of type `int`.
use osext.Common.{
  ℕ, zero, suc, ◌+◌, ◌-◌, ◌*◌, ◌/◌, ◌^◌, Bool, ◌==◌, ◌&&◌, ◌||◌, ltb, leb, if◌then◌else◌, List, [],
  ◌∷◌, bit_or,
}
use osext.Common.Words.{add32, sub32}
use osext.Screen.Charset.{is_ascii_pixel, is_digit_pixel, is_char_pixel}

abbrev pub Buffer : Type 0
Buffer = ℕ → ℕ

unfoldable pub rgbto565 : (r g b : ℕ) → ℕ
rgbto565 r g b =
    if ltb 255 r || ltb 255 g || ltb 255 b
    then 0
    else bit_or (bit_or (r / 8 * 8 * 2 ^ 8) (g / 4 * 4 * 2 ^ 3)) (b / 8)

unfoldable pub pixel_index : (hw_w : Bool) → (x y : ℕ) → ℕ
pixel_index hw_w x y = if hw_w then x * 240 + y else y * 320 + x

unfoldable pub framebuffer_setpixel565 : (hw_w : Bool) → (x y rgb565 : ℕ) → Buffer → Buffer
framebuffer_setpixel565 hw_w x y rgb565 buff =
    if ltb x 320 && ltb y 240
    then (λ i. if i == pixel_index hw_w x y then rgb565 else buff i)
    else buff

unfoldable pub framebuffer_setpixel : (hw_w : Bool) → (x y r g b : ℕ) → Buffer → Buffer
framebuffer_setpixel hw_w x y r g b buff = framebuffer_setpixel565 hw_w x y (rgbto565 r g b) buff

-- `n` rounds of a loop are left, the next with index `i`.
unfoldable pub for_range : (n i : ℕ) → (ℕ → Buffer → Buffer) → Buffer → Buffer
for_range zero i body buff = buff
for_range (suc n) i body buff = for_range n (i + 1) body (body i buff)

-- The rounds of a loop from `start` on to below `start + n`, a sum that wraps.
unfoldable pub rounds : (start n : ℕ) → ℕ
rounds start n = add32 start n - start

unfoldable pub framebuffer_fillrect : (hw_w : Bool) → (xs ys w h r g b : ℕ) → Buffer → Buffer
framebuffer_fillrect hw_w xs ys w h r g b buff =
    for_range (rounds xs w) xs
      (λ x. for_range (rounds ys h) ys (λ y. framebuffer_setpixel hw_w x y r g b)) buff

unfoldable pub framebuffer_drawrect : (hw_w : Bool) → (xs ys w h r g b : ℕ) → Buffer → Buffer
framebuffer_drawrect hw_w xs ys w h r g b buff =
    for_range (rounds ys h) ys
      (λ y buff'.
        framebuffer_setpixel hw_w (sub32 (add32 xs w) 1) y r g b
          (framebuffer_setpixel hw_w xs y r g b buff'))
      (for_range (rounds xs w) xs
        (λ x buff'.
          framebuffer_setpixel hw_w x (sub32 (add32 ys h) 1) r g b
            (framebuffer_setpixel hw_w x ys r g b buff'))
        buff)

-- `data` gives the words of the image.
pub record Img565 : Type 0 where
  pub width : ℕ
  pub height : ℕ
  pub pixels : ℕ → ℕ

unfoldable pub framebuffer_draw_img565 : (hw_w : Bool) → Img565 → (xs ys : ℕ) → Buffer → Buffer
framebuffer_draw_img565 hw_w img xs ys buff =
    for_range img.width 0
      (λ x. for_range img.height 0 (λ y.
        framebuffer_setpixel565 hw_w (add32 xs x) (add32 ys y) (img.pixels (x + y * img.width))))
      buff

-- The two loops over the pixels of a character; `is_pixel` is one of the tests of the character
-- set.
unfoldable pub write_glyph :
    (hw_w : Bool) → (is_pixel : (x y : ℕ) → Bool) → (xx yy r g b : ℕ) → Buffer → Buffer
write_glyph hw_w is_pixel xx yy r g b buff =
    for_range 10 0
      (λ x. for_range 10 0 (λ y buff'.
        if is_pixel x y
        then framebuffer_setpixel hw_w (add32 xx x) (add32 yy y) r g b buff'
        else buff'))
      buff

unfoldable pub framebuffer_write10pchar :
    (hw_w : Bool) → (charset_ascii : ℕ → ℕ) → (xx yy r g b charn : ℕ) → Buffer → Buffer
framebuffer_write10pchar hw_w charset_ascii xx yy r g b charn buff =
    write_glyph hw_w (λ x y. is_char_pixel charset_ascii x y charn) xx yy r g b buff

unfoldable pub framebuffer_write10pdigit :
    (hw_w : Bool) → (charset_ascii : ℕ → ℕ) → (xx yy r g b charn : ℕ) → Buffer → Buffer
framebuffer_write10pdigit hw_w charset_ascii xx yy r g b charn buff =
    write_glyph hw_w (λ x y. is_digit_pixel charset_ascii x y charn) xx yy r g b buff

-- Which pixels a character has in `framebuffer_write10pstring`: letters without their case, and
-- digits; all others are drawn as "a".
unfoldable pub simple_pixel : (charset_ascii : ℕ → ℕ) → (cchar x y : ℕ) → Bool
simple_pixel charset_ascii cchar x y =
    if leb 48 cchar && leb cchar 57
    then is_digit_pixel charset_ascii x y (cchar - 48)
    else if leb 97 cchar && leb cchar 122
    then is_char_pixel charset_ascii x y (cchar - 97)
    else if leb 65 cchar && leb cchar 90
    then is_char_pixel charset_ascii x y (cchar - 65)
    else is_char_pixel charset_ascii x y 0

-- A string is the list of its characters before the null byte.
unfoldable pub framebuffer_write10pstring :
    (hw_w : Bool)
    → (charset_ascii : ℕ → ℕ) → (string : List ℕ) → (xx yy r g b : ℕ) → Buffer
    → Buffer
framebuffer_write10pstring hw_w charset_ascii [] xx yy r g b buff = buff
framebuffer_write10pstring hw_w charset_ascii (cchar ∷ string) xx yy r g b buff =
    framebuffer_write10pstring hw_w charset_ascii string (add32 xx 10) yy r g b
      (write_glyph hw_w (simple_pixel charset_ascii cchar) xx yy r g b buff)

unfoldable pub framebuffer_write10pstring_ascii :
    (hw_w : Bool)
    → (charset_ascii : ℕ → ℕ) → (string : List ℕ) → (xx yy r g b : ℕ) → Buffer
    → Buffer
framebuffer_write10pstring_ascii hw_w charset_ascii [] xx yy r g b buff = buff
framebuffer_write10pstring_ascii hw_w charset_ascii (cchar ∷ string) xx yy r g b buff =
    framebuffer_write10pstring_ascii hw_w charset_ascii string (add32 xx 10) yy r g b
      (write_glyph hw_w (λ x y. is_ascii_pixel charset_ascii x y cchar) xx yy r g b buff)
