-- ===== src/Elf/Got.antt =====
-- The entries of the global offset table.
use osext.Common.{
  ℕ, zero, suc, ◌+◌, ◌*◌, ◌/◌, ◌%◌, ◌^◌, ◌≤◌, ◌<◌, ◌==◌, true, false, leb, if◌then◌else◌, some, ◌≡◌,
  ◌≢◌, refl, ap, ◌∙◌, arith, Bool-cases, inl, inr, ◌⊎◌, ==_iff,
}
use osext.Common.Words.{add32}
use osext.Libk.Memory.{store}
use osext.Elf.Header.{read32, Elf, elf_read_header_mem, elf_check_header}
use osext.Elf.Sections.{
  find_section, sect_offset, sect_bytes, write32, patch_entry, patch_entries, got_name, patch_got,
  elf_fix_got,
}
use osext.Elf.Agree.{Fits, file_size_lem, read32-same}

write32-other : (a w q : ℕ) (mem : ℕ → ℕ) → (q < a) ⊎ (a + 4 ≤ q) → write32 a w mem q ≡ mem q
unfolding write32 store
write32-other a w q mem h = ground (arith, h)

read32-write32 : (a w : ℕ) (mem : ℕ → ℕ) → w < 2 ^ 32 → read32 (write32 a w mem) a ≡ w
unfolding read32 write32 store
read32-write32 a w mem h = ground arith

-- What an entry becomes.
abbrev pub patched : (image w : ℕ) → ℕ
patched image w = if w == 0xffffffff then w else add32 w image

patch_entry-other :
    (image a q : ℕ) (mem : ℕ → ℕ) → (q < a) ⊎ (a + 4 ≤ q) → patch_entry image a mem q ≡ mem q
unfolding patch_entry
patch_entry-other image a q mem h =
    let e = write32-other a (add32 (read32 mem a) image) q mem h in
    elim (Bool-cases (read32 mem a == 0xffffffff)) [ inl c ↦ rw c refl | inr c ↦ rw c e ]

read32-patch_entry :
    (image a : ℕ) (mem : ℕ → ℕ) → read32 (patch_entry image a mem) a ≡ patched image (read32 mem a)
unfolding patch_entry
read32-patch_entry image a mem = elim (Bool-cases (read32 mem a == 0xffffffff)) [
  | inl c ↦ rw (c) refl
  | inr c ↦ rw (c) (read32-write32 a (add32 (read32 mem a) image) mem (omega arith))
]

patch_entries-other :
    (image n a q : ℕ) (mem : ℕ → ℕ)
    → (q < a) ⊎ (a + 4 * n ≤ q)
    → patch_entries image n a mem q ≡ mem q
unfolding patch_entries
patch_entries-other image zero a q mem h = refl
patch_entries-other image (suc n) a q mem h =
    let first : (q < a) ⊎ (a + 4 ≤ q) = elim h [ inl l ↦ inl l | inr l ↦ inr (omega (arith, l)) ] in
    let rest : (q < a + 4) ⊎ (a + 4 + 4 * n ≤ q) = elim h [
      | inl l ↦ inl (omega (arith, l))
      | inr l ↦ inr (omega (arith, l))
    ] in
    patch_entries-other image n (a + 4) q (patch_entry image a mem) rest
    ∙ patch_entry-other image a q mem first

read32-patch_entries :
    (image n a i : ℕ) (mem : ℕ → ℕ)
    → i < n
    → read32 (patch_entries image n a mem) (a + 4 * i) ≡ patched image (read32 mem (a + 4 * i))
unfolding patch_entries
read32-patch_entries image zero a i mem h = absurd (omega (arith, h))
read32-patch_entries image (suc n) a zero mem h =
    let z : a + 4 * 0 ≡ a = omega arith in
    let m' = patch_entry image a mem in
    rw z (
      read32-same (patch_entries image n (a + 4) m') m' a
        (λ q l u. patch_entries-other image n (a + 4) q m' (inl (omega (arith, u))))
      ∙ read32-patch_entry image a mem)
read32-patch_entries image (suc n) a (suc i) mem h =
    let next : a + 4 * suc i ≡ a + 4 + 4 * i = omega arith in
    let m' = patch_entry image a mem in
    rw next (
      read32-patch_entries image n (a + 4) i m' (omega (arith, h))
      ∙ ap (patched image) (
          read32-same m' mem (a + 4 + 4 * i)
            (λ q l u. patch_entry-other image a q mem (inr (omega (arith, l))))))

-- A file with a header whose section of the name ".got" is described at `got`, with its words in
-- the file.
pub record HasGot (mem : ℕ → ℕ) (elf : Elf) (got : ℕ) : Type 0 where
  pub started : elf.start ≢ 0
  pub fits : Fits elf
  pub valid : elf_check_header (elf_read_header_mem mem elf.start) ≡ true
  pub found : find_section mem elf (elf_read_header_mem mem elf.start) got_name 4 ≡ some got
  pub aligned : sect_offset mem got % 4 ≡ 0
  pub in_file : sect_offset mem got + sect_bytes mem got < elf.pages * 4096

-- The entries of the table have the address of the image added.
pub record Patched (mem mem' : ℕ → ℕ) (elf : Elf) (offset size : ℕ) : Type 0 where
  pub entries :
      (i : ℕ)
      → i < size / 4
      → read32 mem' (elf.start + offset + 4 * i)
        ≡ patched elf.image (read32 mem (elf.start + offset + 4 * i))
  pub others :
      (q : ℕ) → (q < elf.start + offset) ⊎ (elf.start + offset + size / 4 * 4 ≤ q) → mem' q ≡ mem q

-- Of a table that lies in the file, at words, elf_fix_got adds the address of the image to each
-- word of the section it finds, modulo 2^32, except to words 0xffffffff, and changes no other byte
-- of the memory.
pub elf_fix_got-Patched :
    (mem : ℕ → ℕ) (elf : Elf) (got : ℕ)
    → HasGot mem elf got
    → Patched mem (elf_fix_got mem (some elf)) elf (sect_offset mem got) (sect_bytes mem got)
unfolding elf_fix_got patch_got
elf_fix_got-Patched mem elf got h =
    let started : (elf.start == 0) ≡ false = ground (arith, h.started) in
    let size = file_size_lem elf h.fits in
    let low : leb (elf.pages * 4096) (sect_offset mem got) ≡ false = ground (arith, h.in_file) in
    let aligned : (sect_offset mem got % 4 == 0) ≡ true = (==_iff _ _).1 h.aligned in
    let high : leb (elf.pages * 4096) (add32 (sect_offset mem got) (sect_bytes mem got)) ≡ false =
      ground (arith, h.in_file, h.fits) in
    let at : add32 elf.start (sect_offset mem got) ≡ elf.start + sect_offset mem got =
      omega (arith, h.in_file, h.fits) in
    rw (started, h.valid, h.found, size, low, aligned, high, at)
      (record {
        entries = λ i l.
            read32-patch_entries elf.image (sect_bytes mem got / 4)
              (elf.start + sect_offset mem got) i mem l;
        others = λ q o.
            patch_entries-other elf.image (sect_bytes mem got / 4) (elf.start + sect_offset mem got)
              q mem (elim o [ inl l ↦ inl l | inr l ↦ inr (omega (arith, l)) ]);
      })
