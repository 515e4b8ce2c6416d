-- ===== src/Elf/Assembled.antt =====
-- The image that is made of a file.
use osext.Common.{
  ℕ, zero, suc, ◌+◌, ◌-◌, ◌*◌, ◌/◌, ◌^◌, ◌≤◌, ◌<◌, ◌==◌, ◌||◌, ◌&&◌, true, false, ltb, leb,
  if◌then◌else◌, Option, some, ◌≡◌, ◌≢◌, refl, ap, ◌∙◌, sym, arith, Bool-cases, inl, inr, ◌⊎◌,
  ==_iff,
}
use osext.Common.Words.{add32, mul32}
use osext.Libk.Memory.{k_memset, k_memcpy}
use osext.Libk.MemoryLaws.{k_memset_lem, k_memcpy_lem}
use osext.Elf.Header.{read32, Header, Elf, elf_read_header_mem, elf_check_header}
use osext.Elf.Image.{
  file_size, file_end, load_header, find_load, prog_offset, filesz, memsz, alloc_for,
  elf_alloc_image, copy_from, elf_assemble_image,
}
use osext.Elf.Agree.{
  SameBytes, SameBytes-inside, read32-same, header-same, Fits, file_size_lem, NoWrap,
  find_load-same, find_load-inside,
}

-- A file of at least one page with a header, whose first program header to load is at `p`, and an
-- image at `given` that has its pages beside those of the file.
pub record Loadable (mem : ℕ → ℕ) (elf : Elf) (p given : ℕ) : Type 0 where
  pub started : elf.start ≢ 0
  pub fresh : elf.image ≡ 0
  pub some_page : 0 < elf.pages
  pub fits : Fits elf
  pub valid : elf_check_header (elf_read_header_mem mem elf.start) ≡ true
  pub no_wrap : NoWrap elf (elf_read_header_mem mem elf.start)
  pub found : find_load mem elf (elf_read_header_mem mem elf.start) ≡ some p
  pub in_file : prog_offset mem p + filesz mem p ≤ elf.pages * 4096
  pub given_pos : given ≢ 0
  pub room : given + (memsz mem p / 4096 + 1) * 4096 < 2 ^ 32
  pub beside :
      (given + (memsz mem p / 4096 + 1) * 4096 ≤ elf.start) ⊎ (elf.start + elf.pages * 4096 ≤ given)

-- The descriptor and the memory when the image has its pages.
abbrev imaged : Elf → (given pages : ℕ) → Elf
imaged elf given pages = record elf { image = given; image_pages = pages }

pub alloc_lem :
    (mem : ℕ → ℕ) (elf : Elf) (p given : ℕ)
    → Loadable mem elf p given
    → elf_alloc_image given mem (some elf) ≡ (
      some (imaged elf given (memsz mem p / 4096 + 1)),
      k_memset given 0 ((memsz mem p / 4096 + 1) * 4096) mem,
    )
unfolding elf_alloc_image alloc_for
alloc_lem mem elf p given l =
    let started : (elf.start == 0) ≡ false = ground (arith, l.started) in
    let fresh : (elf.image == 0) ≡ true = (==_iff elf.image 0).1 l.fresh in
    let given_pos : (given == 0) ≡ false = ground (arith, l.given_pos) in
    let size : mul32 (memsz mem p / 4096 + 1) 4096 ≡ (memsz mem p / 4096 + 1) * 4096 =
      omega (arith, l.room) in
    rw (started, fresh, l.valid, l.found, given_pos, size) refl

-- Clearing the pages of the image does not change the file.
cleared-same :
    (mem : ℕ → ℕ) (elf : Elf) (p given : ℕ)
    → Loadable mem elf p given
    → SameBytes elf.start
        (elf.pages * 4096)
        mem
        (k_memset given 0 ((memsz mem p / 4096 + 1) * 4096) mem)
cleared-same mem elf p given l q low high =
    ground (arith, k_memset_lem given 0 ((memsz mem p / 4096 + 1) * 4096) mem q, l.beside)

assemble_lem :
    (mem : ℕ → ℕ) (elf : Elf) (p : ℕ)
    → elf.start ≢ 0
    → elf.image ≢ 0
    → Fits elf
    → elf_check_header (elf_read_header_mem mem elf.start) ≡ true
    → find_load mem elf (elf_read_header_mem mem elf.start) ≡ some p
    → prog_offset mem p + filesz mem p ≤ elf.pages * 4096
    → elf_assemble_image mem (some elf)
      ≡ k_memcpy elf.image (elf.start + prog_offset mem p) (filesz mem p) mem
unfolding elf_assemble_image copy_from
assemble_lem mem elf p started image fits valid found in_file =
    let s : (elf.start == 0) ≡ false = ground (arith, started) in
    let i : (elf.image == 0) ≡ false = ground (arith, image) in
    let size = file_size_lem elf fits in
    let c : (ltb (elf.pages * 4096) (prog_offset mem p)
          || ltb (elf.pages * 4096) (add32 (prog_offset mem p) (filesz mem p)))
        ≡ false =
      ground (arith, in_file, fits) in
    let at : add32 elf.start (prog_offset mem p) ≡ elf.start + prog_offset mem p =
      omega (arith, in_file, fits) in
    rw (s, i, valid, found, size, c, at) refl

-- `elf_alloc_image` and `elf_assemble_image`, one after the other.
abbrev pub assembled : (given : ℕ) (mem : ℕ → ℕ) (elf : Elf) → ℕ → ℕ
assembled given mem elf = let r = elf_alloc_image given mem (some elf) in elf_assemble_image r.1 r.0

load_header-imaged :
    (mem : ℕ → ℕ) (elf : Elf) (given pages size n p : ℕ)
    → load_header mem (imaged elf given pages) size n p ≡ load_header mem elf size n p
unfolding load_header file_end file_size
load_header-imaged mem elf given pages size zero p = refl
load_header-imaged mem elf given pages size (suc n) p =
    rw (load_header-imaged mem elf given pages size n (add32 p size)) refl

find_load-imaged :
    (mem : ℕ → ℕ) (elf : Elf) (given pages : ℕ) (h : Header)
    → find_load mem (imaged elf given pages) h ≡ find_load mem elf h
unfolding find_load
find_load-imaged mem elf given pages h =
    load_header-imaged mem elf given pages h.prog_size h.prog_count (add32 elf.start h.prog_table)

pub assembled_lem :
    (mem : ℕ → ℕ) (elf : Elf) (p given : ℕ)
    → Loadable mem elf p given
    → let cleared = k_memset given 0 ((memsz mem p / 4096 + 1) * 4096) mem in
      assembled given mem elf
      ≡ k_memcpy given (elf.start + prog_offset mem p) (filesz mem p) cleared
unfolding prog_offset filesz
assembled_lem mem elf p given l =
    let pages = memsz mem p / 4096 + 1 in
    let cleared = k_memset given 0 (pages * 4096) mem in
    let same = cleared-same mem elf p given l in
    let header = header-same mem cleared elf.start (
      SameBytes-inside elf.start 52 elf.start (elf.pages * 4096) mem cleared (omega arith)
        (omega (arith, l.some_page)) same) in
    let at =
      find_load-inside mem elf (elf_read_header_mem mem elf.start) p l.fits l.no_wrap l.found in
    let field : (i : ℕ) → i < 28 → read32 mem (p + i) ≡ read32 cleared (p + i) = λ i k.
      read32-same mem cleared (p + i) (
        SameBytes-inside (p + i) 4 elf.start (elf.pages * 4096) mem cleared (omega (arith, at.0))
          (omega (arith, at.1)) same) in
    let offset = field 4 (omega arith) in
    let size = field 16 (omega arith) in
    ap (λ (r : Option Elf × (ℕ → ℕ)). elf_assemble_image r.1 r.0) (alloc_lem mem elf p given l)
    ∙ assemble_lem cleared (imaged elf given pages) p l.started l.given_pos l.fits
        (ap elf_check_header (sym header) ∙ l.valid)
        (find_load-imaged cleared elf given pages (elf_read_header_mem cleared elf.start)
          ∙ ap (find_load cleared elf) (sym header)
          ∙ sym (
              find_load-same mem cleared elf (elf_read_header_mem mem elf.start) l.fits l.no_wrap
                same)
          ∙ l.found)
        (rw (sym offset, sym size) l.in_file)
    ∙ rw (sym offset, sym size) refl

-- The copy does not overwrite bytes that are still to be copied.
pub apart_bytes :
    (mem : ℕ → ℕ) (elf : Elf) (p given : ℕ)
    → Loadable mem elf p given
    → let from = elf.start + prog_offset mem p in ((given ≤ from) ⊎ (from + filesz mem p ≤ given))
apart_bytes mem elf p given l = elim l.beside [
  | inl h ↦ inl (omega (arith, h))
  | inr h ↦ inr (omega (arith, h, l.in_file))
]

-- The bytes of the file are the same when the image is cleared.
pub image_bytes :
    (mem : ℕ → ℕ) (elf : Elf) (p given q : ℕ)
    → Loadable mem elf p given
    → elf.start ≤ q
    → q < elf.start + elf.pages * 4096
    → k_memset given 0 ((memsz mem p / 4096 + 1) * 4096) mem q ≡ mem q
image_bytes mem elf p given q l low high = sym (cleared-same mem elf p given l q low high)

-- When the file part of the program header lies in the file and fits into its memory part, and the
-- image lies beside the file and below 2^32, the image that elf_alloc_image and elf_assemble_image
-- make has the bytes of the file from the header's offset on, and then zeros up to the end of its
-- pages, and no other byte of the memory changes.
pub assembled-Image :
    (mem : ℕ → ℕ) (elf : Elf) (p given q : ℕ)
    → Loadable mem elf p given
    → filesz mem p ≤ memsz mem p
    → assembled given mem elf q ≡ (
        if leb given q && ltb q (given + filesz mem p)
        then mem (elf.start + prog_offset mem p + (q - given))
        else if leb given q && ltb q (given + (memsz mem p / 4096 + 1) * 4096)
        then 0
        else mem q)
assembled-Image mem elf p given q l le =
    let size = (memsz mem p / 4096 + 1) * 4096 in
    let cleared = k_memset given 0 size mem in
    let from = elf.start + prog_offset mem p in
    ap (λ m. m q) (assembled_lem mem elf p given l)
    ∙ k_memcpy_lem given from (filesz mem p) cleared q (apart_bytes mem elf p given l)
    ∙ elim (Bool-cases (leb given q && ltb q (given + filesz mem p))) [
      | inl inside ↦
          let low : given ≤ q = ground (arith, inside) in
          let high : q < given + filesz mem p = ground (arith, inside) in
          rw inside (
            image_bytes mem elf p given (from + (q - given)) l (omega arith)
              (omega (arith, low, high, l.in_file)))
      | inr outside ↦ rw outside (k_memset_lem given 0 size mem q)
    ]
