-- ===== src/Screen/Pixels.antt =====
-- What a loop of drawing does to one pixel.
use osext.Common.{
  ℕ, zero, suc, ◌+◌, ◌≤◌, ◌<◌, Bool, true, false, ◌==◌, ◌&&◌, ◌||◌, ltb, leb, if◌then◌else◌, ◌≡◌,
  refl, ◌∙◌, arith, Bool-cases, inl, inr,
}
use osext.Screen.Draw.{Buffer, pixel_index, framebuffer_setpixel565, for_range}

-- One of the `n` indices from `i` on hits.
abbrev pub any_from : (hit : ℕ → Bool) → (n i : ℕ) → Bool
any_from hit zero i = false
any_from hit (suc n) i = hit i || any_from hit n (i + 1)

-- The word is `c` where the drawing hits it, and is as before where it does not.
abbrev pub Paints : (at c : ℕ) → Bool → (Buffer → Buffer) → Type 0
Paints at c hit f = (buff : Buffer) → f buff at ≡ (if hit then c else buff at)

pub for_range-Paints :
    (at c : ℕ) (hit : ℕ → Bool) (body : ℕ → Buffer → Buffer) (n i : ℕ)
    → ((k : ℕ) → i ≤ k → k < i + n → Paints at c (hit k) (body k))
    → Paints at c (any_from hit n i) (for_range n i body)
unfolding for_range
for_range-Paints at c hit body zero i h buff = refl
for_range-Paints at c hit body (suc n) i h buff =
    for_range-Paints at c hit body n (i + 1) (λ k l u. h k (omega (arith, l)) (omega (arith, u)))
      (body i buff)
    ∙ elim (Bool-cases (hit i)) [
      | inl e ↦ let b = h i (omega arith) (omega arith) buff in rw e (ground (arith, b, e))
      | inr e ↦ let b = h i (omega arith) (omega arith) buff in rw e (ground (arith, b, e))
    ]

-- Only the index `x` can hit.
pub any_from-only :
    (hit : ℕ → Bool) (x : ℕ) (q : Bool) (n i : ℕ)
    → ((k : ℕ) → hit k ≡ ((k == x) && q))
    → any_from hit n i ≡ (leb i x && ltb x (i + n) && q)
any_from-only hit x q zero i h = ground arith
any_from-only hit x q (suc n) i h =
    let a = h i in let b = any_from-only hit x q n (i + 1) h in ground (arith, a, b)

pub setpixel-Paints :
    (hw_w : Bool) (x y c x' y' : ℕ)
    → x < 320
    → y < 240
    → Paints
        (pixel_index hw_w x y)
        c
        ((x' == x) && (y' == y))
        (framebuffer_setpixel565 hw_w x' y' c)
unfolding framebuffer_setpixel565 pixel_index
setpixel-Paints true x y c x' y' hx hy buff = ground arith
setpixel-Paints false x y c x' y' hx hy buff = ground arith

-- Words behind the screen.
pub setpixel-outside :
    (hw_w : Bool) (x y c at : ℕ)
    → 76800 ≤ at
    → (d : ℕ) → Paints at d false (framebuffer_setpixel565 hw_w x y c)
unfolding framebuffer_setpixel565 pixel_index
setpixel-outside true x y c at h d buff = ground arith
setpixel-outside false x y c at h d buff = ground arith
