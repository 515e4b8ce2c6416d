-- ===== src/Elf/Sections.antt =====
-- `elf_copy_section` and `elf_fix_got`. The loops of the two over the sections are the same.
use osext.Common.{
  ℕ, zero, suc, ◌+◌, ◌-◌, ◌/◌, ◌%◌, ◌^◌, ◌==◌, ◌&&◌, ◌||◌, ltb, leb, if◌then◌else◌, Option, none,
  some,
}
use osext.Common.Words.{add32, sub32, mul32}
use osext.Libk.Memory.{store}
use osext.Libk.Strings.{k_strlen, k_strcmp}
use osext.Elf.Header.{read32, Header, Elf, elf_read_header_mem, elf_check_header}
use osext.Elf.Image.{file_size, file_end}

-- `n` section headers are left, from `sect_header` on, and `len` is the length of the name. `none`
-- also where a header before it or its name is out of bounds.
unfoldable pub section_named :
    (mem : ℕ → ℕ)
    → Elf
    → (strtab sect_size : ℕ) → (searched_name : ℕ → ℕ) → (len n sect_header : ℕ) → Option ℕ
section_named mem elf strtab sect_size searched_name len zero sect_header = none
section_named mem elf strtab sect_size searched_name len (suc n) sect_header =
    let rest =
      section_named mem elf strtab sect_size searched_name len n (add32 sect_header sect_size) in
    let name = add32 (add32 elf.start strtab) (read32 mem sect_header) in
    let maxlen = sub32 (file_end elf) name in
    let characters : ℕ → ℕ = λ i. mem (name + i) in
    if ltb sect_header elf.start || leb (file_end elf) (add32 sect_header 40)
    then none
    else if ltb name elf.start || leb (file_end elf) name
    then none
    else if (k_strcmp characters searched_name (maxlen - 1) == 0)
        && (k_strlen characters (maxlen - 1) == len)
    then some sect_header
    else rest

unfoldable pub sect_offset : (mem : ℕ → ℕ) → ℕ → ℕ
sect_offset mem section = read32 mem (section + 16)

unfoldable pub sect_bytes : (mem : ℕ → ℕ) → ℕ → ℕ
sect_bytes mem section = read32 mem (section + 20)

unfoldable pub find_section :
    (mem : ℕ → ℕ) → Elf → Header → (searched_name : ℕ → ℕ) → (len : ℕ) → Option ℕ
find_section mem elf h searched_name len =
    let strtab_header = add32 h.sect_table (mul32 h.sect_strtab h.sect_size) in
    let strtab = sect_offset mem (add32 elf.start strtab_header) in
    let found =
      section_named mem elf strtab h.sect_size searched_name len h.sect_count
        (add32 elf.start h.sect_table) in
    if h.sect_count == 0
    then none
    else if ltb (file_size elf) (add32 strtab_header 40) || leb (file_size elf) strtab
    then none
    else found

unfoldable pub copy_of : (given : ℕ) → (mem : ℕ → ℕ) → Elf → (sect_pages : ℕ) → Option ℕ → ℕ × ℕ
copy_of given mem elf sect_pages none = (0, sect_pages)
copy_of given mem elf sect_pages (some section) =
    if ltb (file_size elf) (add32 (sect_offset mem section) (sect_bytes mem section))
    then (0, sect_pages)
    else if given == 0
    then (0, 0)
    else (given, sect_bytes mem section / 4096 + 1)

-- The result and `*sect_pages`, which is `none` where `sect_pages` is `NULL`. `given` is what
-- `useConsecutivePages` returns.
unfoldable pub elf_copy_section :
    (given : ℕ) → (mem : ℕ → ℕ) → Option Elf → (searched_name : ℕ → ℕ) → Option ℕ → ℕ × Option ℕ
elf_copy_section given mem none searched_name sect_pages = (0, sect_pages)
elf_copy_section given mem (some elf) searched_name none = (0, none)
elf_copy_section given mem (some elf) searched_name (some pages) =
    let h = elf_read_header_mem mem elf.start in
    let copy =
      copy_of given mem elf pages
        (find_section mem elf h searched_name (k_strlen searched_name 100)) in
    if elf.start == 0
    then (0, some pages)
    else if elf_check_header h
    then (copy.0, some copy.1)
    else (0, some pages)

-- A word is written byte by byte.
unfoldable pub write32 : ℕ → ℕ → (ℕ → ℕ) → ℕ → ℕ
write32 a w mem = store (a + 3) (w / 2 ^ 24 % 2 ^ 8) (
    store (a + 2) (w / 2 ^ 16 % 2 ^ 8)
      (store (a + 1) (w / 2 ^ 8 % 2 ^ 8) (store a (w % 2 ^ 8) mem)))

unfoldable pub patch_entry : (image got_entry : ℕ) → (ℕ → ℕ) → ℕ → ℕ
patch_entry image got_entry mem =
    if read32 mem got_entry == 0xffffffff
    then mem
    else write32 got_entry (add32 (read32 mem got_entry) image) mem

-- `n` entries are left, from `got_entry` on.
unfoldable pub patch_entries : (image n got_entry : ℕ) → (ℕ → ℕ) → ℕ → ℕ
patch_entries image zero got_entry mem = mem
patch_entries image (suc n) got_entry mem =
    patch_entries image n (got_entry + 4) (patch_entry image got_entry mem)

-- The string ".got".
unfoldable pub got_name : ℕ → ℕ
got_name i =
    if i == 0 then 46 else if i == 1 then 103 else if i == 2 then 111 else if i == 3 then 116 else 0

unfoldable pub patch_got : (mem : ℕ → ℕ) → Elf → Option ℕ → ℕ → ℕ
patch_got mem elf none = mem
patch_got mem elf (some got) =
    let offset = sect_offset mem got in
    let size = sect_bytes mem got in
    if leb (file_size elf) offset
    then mem
    else if offset % 4 == 0
    then (if leb (file_size elf) (add32 offset size)
        then mem
        else patch_entries elf.image (size / 4) (add32 elf.start offset) mem)
    else mem

unfoldable pub elf_fix_got : (mem : ℕ → ℕ) → Option Elf → ℕ → ℕ
elf_fix_got mem none = mem
elf_fix_got mem (some elf) =
    let h = elf_read_header_mem mem elf.start in
    if elf.start == 0
    then mem
    else if elf_check_header h
    then patch_got mem elf (find_section mem elf h got_name 4)
    else mem
