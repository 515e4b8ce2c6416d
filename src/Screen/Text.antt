-- ===== src/Screen/Text.antt =====
-- Strings on the screen.
use osext.Common.{
  ℕ, ◌+◌, ◌-◌, ◌*◌, ◌^◌, ◌<◌, Bool, true, false, ◌==◌, ◌&&◌, ◌||◌, ltb, leb, if◌then◌else◌, ◌≡◌,
  refl, sym, ◌∙◌, arith, Bool-cases, inl, inr, List, [], ◌∷◌, length,
}
use osext.Common.Words.{add32}
use osext.Screen.Charset.{is_ascii_pixel}
use osext.Screen.Draw.{
  Buffer, rgbto565, pixel_index, framebuffer_setpixel565, framebuffer_setpixel, write_glyph,
  framebuffer_write10pstring_ascii,
}
use osext.Screen.Pixels.{Paints, setpixel-Paints}
use osext.Screen.Shapes.{area-Paints}

-- The pixel belongs to a character at the place.
abbrev glyph_at : (is_pixel : (x y : ℕ) → Bool) → (xx yy x y : ℕ) → Bool
glyph_at is_pixel xx yy x y =
    (leb xx x && ltb x (xx + 10)) && (leb yy y && ltb y (yy + 10)) && is_pixel (x - xx) (y - yy)

-- The pixel belongs to one of the characters, each of which is 10 pixels right of the one before.
abbrev pub text_at : (charset_ascii : ℕ → ℕ) → (string : List ℕ) → (xx yy x y : ℕ) → Bool
text_at charset_ascii [] xx yy x y = false
text_at charset_ascii (c ∷ cs) xx yy x y =
    glyph_at (λ i j. is_ascii_pixel charset_ascii i j c) xx yy x y
    || text_at charset_ascii cs (xx + 10) yy x y

abbrev glyph_pixel :
    (hw_w : Bool) → (is_pixel : (x y : ℕ) → Bool) → (xx yy c k l : ℕ) → Buffer → Buffer
glyph_pixel hw_w is_pixel xx yy c k l buff =
    if is_pixel k l then framebuffer_setpixel565 hw_w (add32 xx k) (add32 yy l) c buff else buff

-- What a pixel of the loops hits.
abbrev in_cell : (is_pixel : (x y : ℕ) → Bool) → (xx yy x y : ℕ) → Bool
in_cell is_pixel xx yy x y = leb xx x && leb yy y && is_pixel (x - xx) (y - yy)

glyph_pixel-Paints :
    (hw_w : Bool) (is_pixel : (x y : ℕ) → Bool) (xx yy c x y k l : ℕ)
    → x < 320
    → y < 240
    → xx + k < 2 ^ 32
    → yy + l < 2 ^ 32
    → Paints
        (pixel_index hw_w x y)
        c
        ((k == x - xx) && (l == y - yy) && in_cell is_pixel xx yy x y)
        (glyph_pixel hw_w is_pixel xx yy c k l)
glyph_pixel-Paints hw_w is_pixel xx yy c x y k l hx hy kw lw buff =
    let ax : add32 xx k ≡ xx + k = omega (arith, kw) in
    let ay : add32 yy l ≡ yy + l = omega (arith, lw) in
    let set = setpixel-Paints hw_w x y c (add32 xx k) (add32 yy l) hx hy buff in
    elim (Bool-cases ((k == x - xx) && (l == y - yy))) [
      | inl e ↦
          let a : k ≡ x - xx = ground (arith, e) in
          let b : l ≡ y - yy = ground (arith, e) in
          let p : is_pixel k l ≡ is_pixel (x - xx) (y - yy) = rw (a, b) refl in
          elim (Bool-cases (is_pixel k l)) [
            | inl q ↦
                let there = sym p ∙ q in rw q (set ∙ rw (ax, ay, there) (ground (arith, a, b)))
            | inr q ↦ let there = sym p ∙ q in rw (q, there) (ground arith)
          ]
      | inr e ↦ elim (Bool-cases (is_pixel k l)) [
        | inl q ↦ rw q (set ∙ rw (ax, ay) (ground (arith, e)))
        | inr q ↦ rw q (ground (arith, e))
      ]
    ]

pub write_glyph-Paints :
    (hw_w : Bool) (is_pixel : (x y : ℕ) → Bool) (xx yy r g b x y : ℕ)
    → x < 320
    → y < 240
    → xx + 10 < 2 ^ 32
    → yy + 10 < 2 ^ 32
    → Paints
        (pixel_index hw_w x y)
        (rgbto565 r g b)
        (glyph_at is_pixel xx yy x y)
        (write_glyph hw_w is_pixel xx yy r g b)
unfolding write_glyph framebuffer_setpixel
write_glyph-Paints hw_w is_pixel xx yy r g b x y hx hy wx wy buff =
    area-Paints (pixel_index hw_w x y) (rgbto565 r g b) (x - xx) (y - yy) 10 10 0 0
      (in_cell is_pixel xx yy x y) (glyph_pixel hw_w is_pixel xx yy (rgbto565 r g b))
      (λ k l u v.
        glyph_pixel-Paints hw_w is_pixel xx yy (rgbto565 r g b) x y k l hx hy (omega (arith, u, wx))
          (omega (arith, v, wy)))
      buff
    ∙ ground arith

painted_twice :
    (p q : Bool) (u v w : ℕ)
    → u ≡ (if p then w else v)
    → (if q then w else u) ≡ (if p || q then w else v)
painted_twice true true u v w h = refl
painted_twice true false u v w h = h
painted_twice false true u v w h = refl
painted_twice false false u v w h = h

-- A string whose cells lie below 2^32 is drawn pixel by pixel as its characters are in the
-- character set, each 10 pixels right of the one before; no other pixel of the screen changes.
pub framebuffer_write10pstring_ascii_lem :
    (hw_w : Bool) (charset_ascii : ℕ → ℕ) (string : List ℕ) (xx yy r g b : ℕ) (buff : Buffer)
    (x y : ℕ)
    → xx + 10 * length string + 10 < 2 ^ 32
    → yy + 10 < 2 ^ 32
    → x < 320
    → y < 240
    → framebuffer_write10pstring_ascii hw_w charset_ascii string xx yy r g b buff
        (pixel_index hw_w x y)
      ≡ (if text_at charset_ascii string xx yy x y
          then rgbto565 r g b
          else buff (pixel_index hw_w x y))
unfolding framebuffer_write10pstring_ascii
framebuffer_write10pstring_ascii_lem hw_w cs [] xx yy r g b buff x y wx wy hx hy = refl
framebuffer_write10pstring_ascii_lem hw_w cs (c ∷ string) xx yy r g b buff x y wx wy hx hy =
    let next : add32 xx 10 ≡ xx + 10 = omega (arith, wx) in
    let glyph = write_glyph hw_w (λ i j. is_ascii_pixel cs i j c) xx yy r g b in
    let rest =
      framebuffer_write10pstring_ascii_lem hw_w cs string (xx + 10) yy r g b (glyph buff) x y
        (omega (arith, wx)) wy hx hy in
    let here =
      write_glyph-Paints hw_w (λ i j. is_ascii_pixel cs i j c) xx yy r g b x y hx hy
        (omega (arith, wx)) wy buff in
    rw next (
      rest
      ∙ painted_twice (glyph_at (λ i j. is_ascii_pixel cs i j c) xx yy x y)
          (text_at cs string (xx + 10) yy x y) _ (buff (pixel_index hw_w x y)) (rgbto565 r g b)
          here)
