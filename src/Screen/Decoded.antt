-- ===== src/Screen/Decoded.antt =====
-- The pixels that `load_bmp_file` gives to its image.
use osext.Common.{
  ℕ, suc, ◌+◌, ◌-◌, ◌*◌, ◌/◌, ◌^◌, ◌≤◌, ◌<◌, Bool, true, false, ltb, leb, ◌==◌, ◌&&◌, if◌then◌else◌,
  ◌≡◌, refl, ◌∙◌, ap, arith, Bool-cases, inl, inr, ==_iff, some,
}
use native.Mathlib.Nat.{mul-le-mul_left}
use osext.Common.Words.{add32, sub32, mul32}
use osext.Screen.Draw.{rgbto565, Buffer}
use osext.Screen.Pixels.{Paints}
use osext.Screen.Shapes.{area-Paints}
use osext.Physical.{Table, free_consecutive_pages}
use osext.Screen.Image.{Image, create_img565}
use osext.Screen.Bmp.{
  pixel_colour, put_pixel, decode, BmpAnswers, DibHeader, read_dib, signedtounsigned32, is_positive,
  row_size, load_pixels, load_bmp_file,
}

-- Row `y` of the image is row `file_row` of the file.
unfoldable pub file_row : (height : ℕ) → (bottom_up : Bool) → (y : ℕ) → ℕ
file_row height bottom_up y = if bottom_up then height - 1 - y else y

row_below : (w l k n : ℕ) → l < w → k < n → l + k * w < n * w
row_below w l k n hl hk =
    let m : w * suc k ≤ w * n = mul-le-mul_left w (omega arith) in grind (arith, m, hl)

same_index : (w x y k l : ℕ) → x < w → l < w → (x + y * w == l + k * w) ≡ ((k == y) && (l == x))
same_index w x y k l hx hl = elim (Bool-cases (k == y)) [
  | inl e ↦ let f : k * w ≡ y * w = ap (λ n. n * w) ((==_iff k y).0 e) in rw e (ground (arith, f))
  | inr e ↦ rw e (elim (Bool-cases (ltb k y)) [
    | inl g ↦
        let r : l + k * w < y * w = row_below w l k y hl (ground (arith, g)) in ground (arith, r)
    | inr g ↦
        let r : x + y * w < k * w = row_below w x y k hx (ground (arith, e, g)) in ground (arith, r)
  ])
]

-- The index that a round computes, where nothing wraps.
index_lem :
    (w h k l : ℕ) (bottom_up : Bool)
    → w * h < 2 ^ 32
    → h < 2 ^ 32
    → k < h
    → l < w
    → (if bottom_up then add32 l (mul32 (sub32 (sub32 h 1) k) w) else add32 l (mul32 k w))
      ≡ l + file_row h bottom_up k * w
unfolding file_row
index_lem w h k l true small hh hk hl =
    let r : sub32 (sub32 h 1) k ≡ h - 1 - k = omega arith in
    let b = row_below w l (h - 1 - k) h hl (omega arith) in
    let c : h * w < 2 ^ 32 = grind (arith, small) in rw r (omega (arith, b, c))
index_lem w h k l false small hh hk hl =
    let b = row_below w l k h hl hk in
    let c : h * w < 2 ^ 32 = grind (arith, small) in omega (arith, b, c)

turned :
    (h y k : ℕ) (bottom_up : Bool)
    → y < h
    → k < h
    → (file_row h bottom_up k == y) ≡ (k == file_row h bottom_up y)
unfolding file_row
turned h y k true hy hk = ground arith
turned h y k false hy hk = refl

inside :
    (w h x y : ℕ) (bottom_up : Bool)
    → x < w
    → y < h
    → (leb 0 (file_row h bottom_up y)
        && ltb (file_row h bottom_up y) (0 + h)
        && (leb 0 x && ltb x (0 + w))
        && true)
      ≡ true
unfolding file_row
inside w h x y true hx hy = ground arith
inside w h x y false hx hy = ground arith

chosen :
    (k r l x : ℕ) (f : ℕ → ℕ → ℕ) (z : ℕ)
    → (if k == r && l == x then f k l else z) ≡ (if k == r && l == x && true then f r x else z)
chosen k r l x f z = elim (Bool-cases (k == r)) [
  | inl e ↦ elim (Bool-cases (l == x)) [
    | inl g ↦
        let c : f k l ≡ f r x =
          ap (λ (p : ℕ × ℕ). f p.0 p.1) (rw ((==_iff k r).0 e, (==_iff l x).0 g) refl) in
        rw (e, g) c
    | inr g ↦ rw (e, g) refl
  ]
  | inr e ↦ rw e refl
]

decode_lem :
    (memory : ℕ → ℕ) (pixel_data rowsize w h : ℕ) (bottom_up : Bool) (img_data : Buffer) (x y : ℕ)
    → w * h < 2 ^ 32
    → h < 2 ^ 32
    → x < w
    → y < h
    → decode memory pixel_data rowsize w h bottom_up img_data (x + y * w)
      ≡ pixel_colour memory
          (add32 (add32 pixel_data (mul32 rowsize (file_row h bottom_up y))) (mul32 x 3))
unfolding decode put_pixel
decode_lem memory pixel_data rowsize w h bottom_up img_data x y small hh hx hy =
    area-Paints (x + y * w) c (file_row h bottom_up y) x h w 0 0 true body paints img_data
    ∙ rw (inside w h x y bottom_up hx hy) refl
  where
    c : ℕ
    c =
        pixel_colour memory
          (add32 (add32 pixel_data (mul32 rowsize (file_row h bottom_up y))) (mul32 x 3))

    body : ℕ → ℕ → Buffer → Buffer
    body k l =
        put_pixel
          (if bottom_up then add32 l (mul32 (sub32 (sub32 h 1) k) w) else add32 l (mul32 k w))
          (pixel_colour memory (add32 (add32 pixel_data (mul32 rowsize k)) (mul32 l 3)))

    paints :
        (k l : ℕ)
        → k < 0 + h
        → l < 0 + w
        → Paints (x + y * w) c ((k == file_row h bottom_up y) && (l == x) && true) (body k l)
    paints k l hk hl buff =
        let i = index_lem w h k l bottom_up small hh (omega (arith, hk)) (omega (arith, hl)) in
        let s = same_index w x y (file_row h bottom_up k) l hx (omega (arith, hl)) in
        let t = turned h y k bottom_up hy (omega (arith, hk)) in
        rw (i, s, t)
          (chosen k (file_row h bottom_up y) l x
            (λ k' l'.
              pixel_colour memory (add32 (add32 pixel_data (mul32 rowsize k')) (mul32 l' 3)))
            (buff (x + y * w)))

load_pixels_lem :
    (a : BmpAnswers) (memory : ℕ → ℕ) (rest_file pages : ℕ) (dib : DibHeader) (img_data : Buffer)
    (t1 t2 : Table) (img : Image)
    → dib.bpp ≡ 24
    → create_img565 a.room dib.width (signedtounsigned32 dib.height) t1 ≡ (some img, t2)
    → load_pixels a memory rest_file pages dib img_data t1 ≡ record {
      image = some (
        img,
        decode memory
            (add32 rest_file (sub32 a.header.pixel_offset 14))
            (row_size 24 dib.width)
            dib.width
            (signedtounsigned32 dib.height)
            (is_positive dib.height)
            img_data,
      );
      table = free_consecutive_pages rest_file pages t2;
    }
unfolding load_pixels
load_pixels_lem a memory rest_file pages dib img_data t1 t2 img bits created =
    rw (load_pixels, created, created, bits) refl

-- The bytes of a pixel are its blue, its green and its red.
unfoldable pub file_colour : (memory : ℕ → ℕ) → (pixel : ℕ) → ℕ
file_colour memory blue = rgbto565 (memory (blue + 2)) (memory (blue + 1)) (memory blue)

-- Of a file with 24 bits per pixel for which there is room, load_bmp_file gives the image, gives
-- the pages of the file back, and each pixel has the colour that the file has for it, where the
-- rows of a file with a positive height are stored from the bottom up.
pub load_bmp_file_lem :
    (a : BmpAnswers) (memory : ℕ → ℕ) (img_data : Buffer) (t t1 t2 : Table) (rest_file : ℕ)
    (dib : DibHeader) (img : Image)
    → a.header.identifier ≡ 0x4d42
    → a.use_consecutive_pages (a.header.size / 4096 + 1) t ≡ (rest_file, t1)
    → 0 < rest_file
    → read_dib (a.nuc_fread rest_file (sub32 a.header.size 14) memory) rest_file ≡ dib
    → dib.color_planes ≡ 1
    → dib.compression ≡ 0
    → dib.bpp ≡ 24
    → create_img565 a.room dib.width (signedtounsigned32 dib.height) t1 ≡ (some img, t2)
    → dib.width * signedtounsigned32 dib.height < 2 ^ 32
    → signedtounsigned32 dib.height < 2 ^ 32
    → (pixels : Buffer) × (((load_bmp_file a memory img_data t).image ≡ some (img, pixels))
        × ((load_bmp_file a memory img_data t).table
            ≡ free_consecutive_pages rest_file (a.header.size / 4096 + 1) t2)
        × ((x y : ℕ)
            → x < dib.width
            → y < signedtounsigned32 dib.height
            → pixels (x + y * dib.width)
              ≡ file_colour (a.nuc_fread rest_file (sub32 a.header.size 14) memory) (
                  add32
                    (add32 (add32 rest_file (sub32 a.header.pixel_offset 14)) (
                      mul32
                        (row_size 24 dib.width)
                        (file_row (signedtounsigned32 dib.height) (is_positive dib.height) y)))
                    (mul32 x 3))))
unfolding load_bmp_file pixel_colour file_colour
load_bmp_file_lem a memory img_data t t1 t2 rest_file dib img id given nz read planes none' bits
      created small hh =
    let i : (a.header.identifier == 0x4d42) ≡ true = (==_iff a.header.identifier 0x4d42).1 id in
    let n : (rest_file == 0) ≡ false = ground arith in
    let p : (dib.color_planes == 1) ≡ true = (==_iff dib.color_planes 1).1 planes in
    let c : (dib.compression == 0) ≡ true = (==_iff dib.compression 0).1 none' in
    let l =
      load_pixels_lem a (a.nuc_fread rest_file (sub32 a.header.size 14) memory) rest_file
        (a.header.size / 4096 + 1) dib img_data t1 t2 img bits created in
    (
      decode (a.nuc_fread rest_file (sub32 a.header.size 14) memory)
          (add32 rest_file (sub32 a.header.pixel_offset 14)) (row_size 24 dib.width) dib.width
          (signedtounsigned32 dib.height) (is_positive dib.height) img_data,
      (
        rw (load_bmp_file, i, given, n, read, p, c, l) refl,
        rw (load_bmp_file, i, given, n, read, p, c, l) refl,
        λ x y hx hy.
            decode_lem (a.nuc_fread rest_file (sub32 a.header.size 14) memory)
              (add32 rest_file (sub32 a.header.pixel_offset 14)) (row_size 24 dib.width) dib.width
              (signedtounsigned32 dib.height) (is_positive dib.height) img_data x y small hh hx hy,
      ),
    )
