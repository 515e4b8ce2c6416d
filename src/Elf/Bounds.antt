-- ===== src/Elf/Bounds.antt =====
-- Addresses inside and outside the image.
use osext.Common.{
  ℕ, ◌+◌, ◌-◌, ◌*◌, ◌/◌, ◌^◌, ◌≤◌, ◌<◌, ◌==◌, ◌||◌, ◌&&◌, true, ltb, leb, some, ◌≡◌, refl, ap, ◌∙◌,
  arith, Bool-cases, inl, inr, ◌⊎◌,
}
use osext.Common.Words.{add32, mul32}
use osext.Libk.Memory.{k_memset}
use osext.Libk.MemoryLaws.{k_memcpy_lem}
use osext.Elf.Header.{Elf, elf_read_header_mem, elf_check_header}
use osext.Elf.Image.{prog_offset, filesz, memsz, elf_entry}
use osext.Elf.Assembled.{Loadable, assembled, assembled_lem, apart_bytes, image_bytes}

-- elf_entry returns NULL or an address inside the image, when the image ends below 2^32.
pub elf_entry-in_image :
    (mem : ℕ → ℕ) (elf : Elf)
    → elf.image + elf.image_pages * 4096 < 2 ^ 32
    → let e = elf_entry mem (some elf) in
      ((e ≡ 0) ⊎ ((elf.image ≤ e) × (e < elf.image + elf.image_pages * 4096)))
unfolding elf_entry
elf_entry-in_image mem elf h =
    let entry = (elf_read_header_mem mem elf.start).entry in
    elim (Bool-cases (elf.image == 0 || elf.start == 0)) [
      | inl missing ↦ inl (rw missing refl)
      | inr there ↦ elim (Bool-cases (elf_check_header (elf_read_header_mem mem elf.start))) [
        | inr bad ↦ inl (rw (there, bad) refl)
        | inl good ↦ elim (Bool-cases (leb (mul32 elf.image_pages 4096) entry)) [
          | inl out ↦ inl (rw (there, good, out) refl)
          | inr inside ↦
              let below : entry < elf.image_pages * 4096 = ground (arith, inside, h) in
              let at : add32 elf.image entry ≡ elf.image + entry = omega (arith, below, h) in
              inr (rw (there, good, inside, at) (omega arith, omega (arith, below)))
        ]
      ]
    ]

-- When the file part of a program header is larger than the pages of the image, the byte behind
-- the image becomes a byte of the file.
pub assembled-behind_image :
    (mem : ℕ → ℕ) (elf : Elf) (p given : ℕ)
    → Loadable mem elf p given
    → (memsz mem p / 4096 + 1) * 4096 < filesz mem p
    → assembled given mem elf (given + (memsz mem p / 4096 + 1) * 4096)
      ≡ mem (elf.start + prog_offset mem p + (memsz mem p / 4096 + 1) * 4096)
assembled-behind_image mem elf p given l large =
    let size = (memsz mem p / 4096 + 1) * 4096 in
    let cleared = k_memset given 0 size mem in
    let from = elf.start + prog_offset mem p in
    let inside : (leb given (given + size) && ltb (given + size) (given + filesz mem p)) ≡ true =
      ground (arith, large) in
    let offset : given + size - given ≡ size = omega arith in
    ap (λ m. m (given + size)) (assembled_lem mem elf p given l)
    ∙ k_memcpy_lem given from (filesz mem p) cleared (given + size) (apart_bytes mem elf p given l)
    ∙ rw (inside, offset)
        (image_bytes mem elf p given (from + size) l (omega arith)
          (omega (arith, large, l.in_file)))
