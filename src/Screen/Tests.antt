-- ===== src/Screen/Tests.antt =====
-- Drawing on a small part of the screen.
use osext.Common.{
  ℕ, ◌+◌, ◌-◌, ◌*◌, ◌%◌, ◌^◌, ◌==◌, some, ◌≤◌, ◌<◌, true, false, ◌&&◌, ltb, leb, if◌then◌else◌, ◌≡◌,
  refl, arith, [], ◌∷◌,
}
use osext.Screen.Charset.{is_ascii_pixel}
use osext.Physical.{free_consecutive_pages}
use osext.Elf.Header.{read16, read32}
use osext.Screen.Image.{Image, create_img565}
use osext.Screen.Bmp.{
  BmpAnswers, DibHeader, read_dib, signedtounsigned32, is_positive, row_size, load_bmp_file,
}
use osext.Screen.Decoded.{file_colour, file_row, load_bmp_file_lem}
use osext.Common.Words.{add32, mul32}
use osext.Screen.Draw.{
  Buffer, rgbto565, pixel_index, framebuffer_setpixel565, framebuffer_setpixel, for_range, rounds,
  framebuffer_drawrect, Img565, framebuffer_draw_img565, framebuffer_write10pstring_ascii,
}
use osext.Screen.Lcd.{Lcd, claim_lcd, free_lcd, on_back, lcd_setpixel}
use osext.Screen.Shapes.{framebuffer_draw_img565_lem}
use osext.Screen.Text.{text_at, framebuffer_write10pstring_ascii_lem}

abbrev black : Buffer
black i = 0

-- A rectangle without height is drawn as two lines.
flat_rectangle :
    framebuffer_drawrect false 4 5 1 0 255 255 255 black (pixel_index false 4 4) ≡ 0xffff
unfolding framebuffer_drawrect rounds for_range framebuffer_setpixel framebuffer_setpixel565
    rgbto565 pixel_index
flat_rectangle = refl

abbrev image : Img565
image = record { width = 2; height = 3; pixels = λ i. 100 + i }

framebuffer_draw_img565_lem_example :
    let drawn = framebuffer_draw_img565 true image 319 7 black in
    ((x y : ℕ)
      → x < 320
      → y < 240
      → drawn (pixel_index true x y) ≡ (
          if (leb 319 x && ltb x (319 + 2)) && (leb 7 y && ltb y (7 + 3))
          then image.pixels ((x - 319) + (y - 7) * 2)
          else 0))
    × ((i : ℕ) → 76800 ≤ i → drawn i ≡ 0)
framebuffer_draw_img565_lem_example =
    framebuffer_draw_img565_lem true image 319 7 black (omega arith) (omega arith)

-- Every pixel is set in the character set.
abbrev all_set : ℕ → ℕ
all_set i = 255

framebuffer_write10pstring_ascii_lem_example :
    framebuffer_write10pstring_ascii false all_set
      (72 ∷ 105 ∷ [])
      20
      30
      0
      255
      0
      black
      (pixel_index false 35 33)
    ≡ (if text_at all_set (72 ∷ 105 ∷ []) 20 30 35 33 then rgbto565 0 255 0 else 0)
framebuffer_write10pstring_ascii_lem_example =
    framebuffer_write10pstring_ascii_lem false all_set (72 ∷ 105 ∷ []) 20 30 0 255 0 black 35 33
      (omega arith) (omega arith) (omega arith) (omega arith)

text_there : text_at all_set (72 ∷ 105 ∷ []) 20 30 35 33 ≡ true
unfolding is_ascii_pixel
text_there = refl

-- Claiming the screen and giving it back leaves it to its old frame buffer.
abbrev lcd : Lcd
lcd = record {
  own_framebuffer = false;
  framebuffer1 = black;
  framebuffer2 = black;
  front = 0x11000000;
  lcd_upbase = 0xa8000000;
  old_framebuffer = 0;
}

claimed_and_freed : (free_lcd (claim_lcd lcd)).lcd_upbase ≡ 0xa8000000
unfolding free_lcd claim_lcd
claimed_and_freed = refl

drawn_without : lcd_setpixel false 1 1 255 255 255 lcd ≡ lcd
unfolding lcd_setpixel on_back
drawn_without = refl

-- The file behind its first header, at 4096: a bitmap of 2 by 2 pixels, whose bytes count up.
abbrev bitmap : ℕ → ℕ
bitmap q =
    if q == 4100
    then 2
    else if q == 4104
    then 2
    else if q == 4108
    then 1
    else if q == 4110
    then 24
    else if leb 4136 q
    then q % 2 ^ 8
    else 0

abbrev reading : BmpAnswers
reading = record {
  header = record { identifier = 0x4d42; size = 70; pixel_offset = 54 };
  use_consecutive_pages = λ size t. (4096, t);
  nuc_fread = λ to size memory. bitmap;
  room = record { image = true; data_address = 256; use_consecutive_pages = λ size t. (0, t) };
}

abbrev two_by_two : DibHeader
two_by_two = record { width = 2; height = 2; color_planes = 1; bpp = 24; compression = 0 }

abbrev small_image : Image
small_image = record { width = 2; height = 2; address = 256 }

load_bmp_file_lem_example :
    (pixels : Buffer) × (((load_bmp_file reading bitmap (λ _. 0) []).image
        ≡ some (small_image, pixels))
      × ((load_bmp_file reading bitmap (λ _. 0) []).table ≡ free_consecutive_pages 4096 1 [])
      × ((x y : ℕ)
          → x < 2
          → y < signedtounsigned32 2
          → pixels (x + y * 2)
            ≡ file_colour bitmap (
                add32
                  (add32
                    (add32 4096 40)
                    (mul32 (row_size 24 2) (file_row (signedtounsigned32 2) (is_positive 2) y)))
                  (mul32 x 3))))
unfolding read_dib read16 read32 signedtounsigned32 create_img565
load_bmp_file_lem_example =
    load_bmp_file_lem reading bitmap (λ _. 0) [] [] [] 4096 two_by_two small_image refl refl
      (omega arith) refl refl refl refl refl (omega arith) (omega arith)
