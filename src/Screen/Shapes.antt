-- ===== src/Screen/Shapes.antt =====
-- Rectangles and images.
use osext.Common.{
  ℕ, zero, suc, ◌+◌, ◌-◌, ◌*◌, ◌^◌, ◌≤◌, ◌<◌, Bool, true, false, ◌==◌, ◌&&◌, ltb, leb,
  if◌then◌else◌, ◌≡◌, refl, ap, ◌∙◌, arith, Bool-cases, inl, inr,
}
use osext.Common.Words.{add32}
use osext.Screen.Draw.{
  Buffer, rgbto565, pixel_index, framebuffer_setpixel565, framebuffer_setpixel, for_range, rounds,
  framebuffer_fillrect, Img565, framebuffer_draw_img565,
}
use osext.Screen.Pixels.{
  any_from, Paints, for_range-Paints, any_from-only, setpixel-Paints, setpixel-outside,
}

pub rounds_lem : (start n : ℕ) → start + n < 2 ^ 32 → rounds start n ≡ n
unfolding rounds
rounds_lem start n h = omega (arith, h)

any_from-none : (hit : ℕ → Bool) (n i : ℕ) → ((k : ℕ) → hit k ≡ false) → any_from hit n i ≡ false
any_from-none hit zero i h = refl
any_from-none hit (suc n) i h = rw (h i) (any_from-none hit n (i + 1) h)

-- Nested loops, of which one round draws the pixel.
pub area-Paints :
    (at c x y n m i j : ℕ) (q : Bool) (body : ℕ → ℕ → Buffer → Buffer)
    → ((k l : ℕ) → k < i + n → l < j + m → Paints at c ((k == x) && (l == y) && q) (body k l))
    → Paints at c
        ((leb i x && ltb x (i + n)) && (leb j y && ltb y (j + m)) && q)
        (for_range n i (λ k. for_range m j (body k)))
area-Paints at c x y n m i j q body h buff =
    for_range-Paints at c (λ k. any_from (λ l. (k == x) && (l == y) && q) m j)
      (λ k. for_range m j (body k)) n i
      (λ k _ u.
        for_range-Paints at c (λ l. (k == x) && (l == y) && q) (body k) m j (λ l _ v. h k l u v))
      buff
    ∙ ap (λ b. if b then c else buff at)
        (any_from-only (λ k. any_from (λ l. (k == x) && (l == y) && q) m j) x
            ((leb j y && ltb y (j + m)) && q) n i
            (λ k.
              any_from-only (λ l. (k == x) && (l == y) && q) y ((k == x) && q) m j
                (λ l. ground arith)
              ∙ ground arith)
          ∙ ground arith)

-- Filling a rectangle that ends below 2^32 gives its pixels on the screen the colour, and changes
-- no other pixel and no word behind the 76800 of the screen.
pub framebuffer_fillrect_lem :
    (hw_w : Bool) (xs ys w h r g b : ℕ) (buff : Buffer)
    → xs + w < 2 ^ 32
    → ys + h < 2 ^ 32
    → let filled = framebuffer_fillrect hw_w xs ys w h r g b buff in
      ((x y : ℕ)
        → x < 320
        → y < 240
        → filled (pixel_index hw_w x y) ≡ (
            if (leb xs x && ltb x (xs + w)) && (leb ys y && ltb y (ys + h))
            then rgbto565 r g b
            else buff (pixel_index hw_w x y)))
      × ((i : ℕ) → 76800 ≤ i → filled i ≡ buff i)
unfolding framebuffer_fillrect framebuffer_setpixel
framebuffer_fillrect_lem hw_w xs ys w h r g b buff wx wy =
    let rx = rounds_lem xs w wx in
    let ry = rounds_lem ys h wy in
    rw (rx, ry)
      (
        λ x y hx hy.
            area-Paints (pixel_index hw_w x y) (rgbto565 r g b) x y w h xs ys true
              (λ k l. framebuffer_setpixel565 hw_w k l (rgbto565 r g b))
              (λ k l _ _ b'. setpixel-Paints hw_w x y (rgbto565 r g b) k l hx hy b' ∙ ground arith)
              buff
            ∙ ground arith,
        λ i o.
            area-Paints i 0 0 0 w h xs ys false
              (λ k l. framebuffer_setpixel565 hw_w k l (rgbto565 r g b))
              (λ k l _ _ b'. setpixel-outside hw_w k l (rgbto565 r g b) i o 0 b' ∙ ground arith)
              buff
            ∙ ground arith,
      )

-- One round of the loops of `framebuffer_draw_img565`.
abbrev image_pixel : (hw_w : Bool) → Img565 → (xs ys k l : ℕ) → Buffer → Buffer
image_pixel hw_w img xs ys k l =
    framebuffer_setpixel565 hw_w (add32 xs k) (add32 ys l) (img.pixels (k + l * img.width))

image_pixel-Paints :
    (hw_w : Bool) (img : Img565) (xs ys x y k l : ℕ)
    → x < 320
    → y < 240
    → xs + k < 2 ^ 32
    → ys + l < 2 ^ 32
    → Paints
        (pixel_index hw_w x y)
        (img.pixels ((x - xs) + (y - ys) * img.width))
        ((k == x - xs) && (l == y - ys) && (leb xs x && leb ys y))
        (image_pixel hw_w img xs ys k l)
image_pixel-Paints hw_w img xs ys x y k l hx hy kw lw buff =
    let ax : add32 xs k ≡ xs + k = omega (arith, kw) in
    let ay : add32 ys l ≡ ys + l = omega (arith, lw) in
    setpixel-Paints hw_w x y (img.pixels (k + l * img.width)) (add32 xs k) (add32 ys l) hx hy buff
    ∙ rw (ax, ay)
        (elim (Bool-cases ((xs + k == x) && (ys + l == y))) [
          | inl e ↦
              let a : k ≡ x - xs = ground (arith, e) in
              let b : l ≡ y - ys = ground (arith, e) in
              let c : img.pixels (k + l * img.width)
                  ≡ img.pixels ((x - xs) + (y - ys) * img.width) =
                ap (λ (p : ℕ × ℕ). img.pixels (p.0 + p.1 * img.width)) (rw (a, b) refl) in
              let hit : ((k == x - xs) && (l == y - ys) && (leb xs x && leb ys y)) ≡ true =
                ground (arith, e) in
              rw (e, hit) c
          | inr e ↦
              let no : ((k == x - xs) && (l == y - ys) && (leb xs x && leb ys y)) ≡ false =
                ground (arith, e) in
              rw (e, no) refl
        ])

-- An image that is drawn with its right and lower ends below 2^32 gives the pixels of its area on
-- the screen the words of the image, row by row, and changes no other pixel and no word behind the
-- 76800 of the screen.
pub framebuffer_draw_img565_lem :
    (hw_w : Bool) (img : Img565) (xs ys : ℕ) (buff : Buffer)
    → xs + img.width < 2 ^ 32
    → ys + img.height < 2 ^ 32
    → let drawn = framebuffer_draw_img565 hw_w img xs ys buff in
      ((x y : ℕ)
        → x < 320
        → y < 240
        → drawn (pixel_index hw_w x y) ≡ (
            if (leb xs x && ltb x (xs + img.width)) && (leb ys y && ltb y (ys + img.height))
            then img.pixels ((x - xs) + (y - ys) * img.width)
            else buff (pixel_index hw_w x y)))
      × ((i : ℕ) → 76800 ≤ i → drawn i ≡ buff i)
unfolding framebuffer_draw_img565
framebuffer_draw_img565_lem hw_w img xs ys buff wx wy = (
  λ x y hx hy.
      area-Paints (pixel_index hw_w x y) (img.pixels ((x - xs) + (y - ys) * img.width)) (x - xs)
        (y - ys) img.width img.height 0 0 (leb xs x && leb ys y) (image_pixel hw_w img xs ys)
        (λ k l u v.
          image_pixel-Paints hw_w img xs ys x y k l hx hy (omega (arith, u, wx))
            (omega (arith, v, wy)))
        buff
      ∙ ground arith,
  λ i o.
      area-Paints i 0 0 0 img.width img.height 0 0 false (image_pixel hw_w img xs ys)
        (λ k l _ _ b'.
          setpixel-outside hw_w (add32 xs k) (add32 ys l) (img.pixels (k + l * img.width)) i o 0 b'
          ∙ ground arith)
        buff
      ∙ ground arith,
)
