-- ===== src/Elf/Tests.antt =====
-- The loader on a file of 180 bytes.
use osext.Common.{
  ℕ, ◌+◌, ◌-◌, ◌*◌, ◌/◌, ◌≤◌, ◌<◌, ◌&&◌, ltb, leb, if◌then◌else◌, some, ◌≡◌, refl, arith, inr, ◌⊎◌,
  get_or,
}
use osext.Libk.Strings.{k_strlen, k_strcmp, strlen_from, strcmp_from}
use osext.Elf.Header.{read16, read32, Elf, elf_read_header_mem, elf_check_header}
use osext.Elf.Image.{
  file_size, file_end, load_header, find_load, prog_offset, filesz, memsz, elf_entry,
}
use osext.Elf.Sections.{section_named, find_section, sect_offset, sect_bytes, got_name, elf_fix_got}
use osext.Elf.Assembled.{Loadable, assembled, assembled-Image}
use osext.Elf.Got.{HasGot, Patched, elf_fix_got-Patched}
use osext.Elf.Sample.{bytes}
use osext.Elf.Bounds.{elf_entry-in_image}

abbrev file : Elf
file = record { pages = 3; start = 0xec001000; image = 0; image_pages = 0 }

abbrev memory : (size : ℕ) → ℕ → ℕ
memory size q = if leb 0xec001000 q then get_or (bytes size) (q - 0xec001000) 0 else 0

-- The image is to have one page, at 0xec010000.
small-Loadable : Loadable (memory 8) file 0xec001034 0xec010000
unfolding elf_read_header_mem elf_check_header read16 read32 find_load load_header file_end
    file_size prog_offset filesz memsz
small-Loadable = record {
  started = λ e. omega (arith, e);
  fresh = refl;
  some_page = omega arith;
  fits = omega arith;
  valid = refl;
  no_wrap = omega arith;
  found = refl;
  in_file = omega arith;
  given_pos = λ e. omega (arith, e);
  room = omega arith;
  beside = inr (omega arith);
}

large-Loadable : Loadable (memory 5000) file 0xec001034 0xec010000
unfolding elf_read_header_mem elf_check_header read16 read32 find_load load_header file_end
    file_size prog_offset filesz memsz
large-Loadable = record {
  started = λ e. omega (arith, e);
  fresh = refl;
  some_page = omega arith;
  fits = omega arith;
  valid = refl;
  no_wrap = omega arith;
  found = refl;
  in_file = omega arith;
  given_pos = λ e. omega (arith, e);
  room = omega arith;
  beside = inr (omega arith);
}

sizes :
    (filesz (memory 8) 0xec001034 ≡ 8)
    × (memsz (memory 8) 0xec001034 ≡ 16)
    × (filesz (memory 5000) 0xec001034 ≡ 5000)
    × (memsz (memory 5000) 0xec001034 ≡ 16)
unfolding filesz memsz read32
sizes = (refl, refl, refl, refl)

assembled-Image_example : assembled 0xec010000 (memory 8) file 0xec010004 ≡ (
    if leb 0xec010000 0xec010004 && ltb 0xec010004 (0xec010000 + filesz (memory 8) 0xec001034)
    then memory 8 (file.start + prog_offset (memory 8) 0xec001034 + (0xec010004 - 0xec010000))
    else if leb 0xec010000 0xec010004
        && ltb 0xec010004 (0xec010000 + (memsz (memory 8) 0xec001034 / 4096 + 1) * 4096)
    then 0
    else memory 8 0xec010004)
assembled-Image_example =
    assembled-Image (memory 8) file 0xec001034 0xec010000 0xec010004 small-Loadable
      (omega (arith, sizes.0, sizes.1))

abbrev with_image : Elf
with_image = record file { image = 0xec010000; image_pages = 1 }

with_image-HasGot : HasGot (memory 8) with_image 0xec00107c
unfolding elf_read_header_mem elf_check_header read16 read32 file_end file_size find_section
    section_named sect_offset sect_bytes got_name k_strlen k_strcmp strlen_from strcmp_from
with_image-HasGot = record {
  started = λ e. omega (arith, e);
  fits = omega arith;
  valid = refl;
  found = refl;
  aligned = refl;
  in_file = omega arith;
}

elf_fix_got-Patched_example :
    Patched
      (memory 8)
      (elf_fix_got (memory 8) (some with_image))
      with_image
      (sect_offset (memory 8) 0xec00107c)
      (sect_bytes (memory 8) 0xec00107c)
elf_fix_got-Patched_example = elf_fix_got-Patched (memory 8) with_image 0xec00107c with_image-HasGot

elf_entry-in_image_example :
    let e = elf_entry (memory 8) (some with_image) in
    ((e ≡ 0) ⊎ ((0xec010000 ≤ e) × (e < 0xec011000)))
elf_entry-in_image_example = elf_entry-in_image (memory 8) with_image (omega arith)
