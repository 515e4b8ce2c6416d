-- ===== src/Screen/Bmp.antt =====
-- `load_bmp_file` of modules/background/bmp.c.
use osext.Common.{
  ℕ, ◌+◌, ◌-◌, ◌/◌, ◌%◌, ◌^◌, Bool, ltb, ◌==◌, ◌&&◌, not, if◌then◌else◌, Option, none, some,
}
use osext.Common.Words.{add32, sub32, mul32}
use osext.Physical.{Table, free_consecutive_pages}
use osext.Elf.Header.{read16, read32}
use osext.Screen.Draw.{Buffer, rgbto565, for_range}
use osext.Screen.Image.{Image, Room, create_img565, destroy_img565}

pub record BmpHeader : Type 0 where
  pub identifier : ℕ
  pub size : ℕ
  pub pixel_offset : ℕ

-- `width` and `height` are given by their 32 bits.
pub record DibHeader : Type 0 where
  pub width : ℕ
  pub height : ℕ
  pub color_planes : ℕ
  pub bpp : ℕ
  pub compression : ℕ

unfoldable pub read_dib : (memory : ℕ → ℕ) → (rest_file : ℕ) → DibHeader
read_dib memory rest_file = record {
  width = read32 memory (rest_file + 4);
  height = read32 memory (rest_file + 8);
  color_planes = read16 memory (rest_file + 12);
  bpp = read16 memory (rest_file + 14);
  compression = read32 memory (rest_file + 16);
}

-- The header is what the reads of its fields give; `nuc_fread` reads the rest of the file to an
-- address, and `use_consecutive_pages` gives 0 for `NULL`.
pub record BmpAnswers : Type 0 where
  pub header : BmpHeader
  pub use_consecutive_pages : (size : ℕ) → Table → ℕ × Table
  pub nuc_fread : (to size : ℕ) → (ℕ → ℕ) → ℕ → ℕ
  pub room : Room

unfoldable pub signedtounsigned32 : ℕ → ℕ
signedtounsigned32 i = if ltb i (2 ^ 31) then i else sub32 0 i

-- `dib.height > 0`
unfoldable pub is_positive : ℕ → Bool
is_positive i = not (i == 0) && ltb i (2 ^ 31)

unfoldable pub row_size : (bpp width : ℕ) → ℕ
row_size bpp width =
    let rowsize = mul32 bpp width / 8 in
    if rowsize % 4 == 0 then rowsize else add32 rowsize (4 - rowsize % 4)

unfoldable pub pixel_colour : (memory : ℕ → ℕ) → (pixel : ℕ) → ℕ
pixel_colour memory pixel = rgbto565 (memory (pixel + 2)) (memory (pixel + 1)) (memory pixel)

unfoldable pub put_pixel : (index colour : ℕ) → Buffer → Buffer
put_pixel index colour img_data i = if i == index then colour else img_data i

-- The loops for 24 bits per pixel.
unfoldable pub decode :
    (memory : ℕ → ℕ) → (pixel_data rowsize width height : ℕ) → (bottom_up : Bool) → Buffer → Buffer
decode memory pixel_data rowsize width height bottom_up img_data =
    for_range height 0
      (λ y. for_range width 0 (λ x.
        put_pixel
          (if bottom_up
            then add32 x (mul32 (sub32 (sub32 height 1) y) width)
            else add32 x (mul32 y width))
          (pixel_colour memory (add32 (add32 pixel_data (mul32 rowsize y)) (mul32 x 3)))))
      img_data

-- The image with its data, where one is returned, and the table.
pub record Loaded : Type 0 where
  pub image : Option (Image × Buffer)
  pub table : Table

-- From the creation of the image on.
unfoldable pub load_pixels :
    BmpAnswers
    → (memory : ℕ → ℕ) → (rest_file pages : ℕ) → DibHeader
    → (img_data : Buffer) → Table
    → Loaded
load_pixels a memory rest_file pages dib img_data t =
    let height = signedtounsigned32 dib.height in
    let created = create_img565 a.room dib.width height t in
    elim created.0 [
      | none ↦ record { image = none; table = free_consecutive_pages rest_file pages created.1 }
      | some img ↦
          let freed = free_consecutive_pages rest_file pages created.1 in
          let decoded =
            decode memory (add32 rest_file (sub32 a.header.pixel_offset 14))
              (row_size dib.bpp dib.width) dib.width height (is_positive dib.height) img_data in
          if dib.bpp == 24
          then record { image = some (img, decoded); table = freed }
          else record { image = none; table = destroy_img565 (some img) freed }
    ]

-- `img_data` is what the data of the image holds before.
unfoldable pub load_bmp_file : BmpAnswers → (memory : ℕ → ℕ) → (img_data : Buffer) → Table → Loaded
load_bmp_file a memory img_data t =
    let pages = a.header.size / 4096 + 1 in
    let given = a.use_consecutive_pages pages t in
    let memory' = a.nuc_fread given.0 (sub32 a.header.size 14) memory in
    let dib = read_dib memory' given.0 in
    let failed : Loaded = record {
      image = none;
      table = free_consecutive_pages given.0 pages given.1;
    } in
    let loaded = load_pixels a memory' given.0 pages dib img_data given.1 in
    if a.header.identifier == 0x4d42
    then (if given.0 == 0
        then record { image = none; table = given.1 }
        else if dib.color_planes == 1
        then (if dib.compression == 0 then loaded else failed)
        else failed)
    else record { image = none; table = t }
