-- ===== src/Elf/Image.antt =====
-- `elf_entry`, `elf_alloc_image` and `elf_assemble_image`. A `NULL` descriptor is `none`. Pointers
-- are 32-bit words, and their sums wrap.
use osext.Common.{ℕ, zero, suc, ◌+◌, ◌/◌, ◌==◌, ◌||◌, ltb, leb, if◌then◌else◌, Option, none, some}
use osext.Common.Words.{add32, mul32}
use osext.Libk.Memory.{k_memset, k_memcpy}
use osext.Elf.Header.{read32, Header, Elf, elf_read_header_mem, elf_check_header}

-- The bytes of the file in the memory.
unfoldable pub file_size : Elf → ℕ
file_size elf = mul32 elf.pages 4096

unfoldable pub file_end : Elf → ℕ
file_end elf = add32 elf.start (file_size elf)

-- `n` program headers are left, from `prog_pointer` on: the first of type 1. `none` also where a
-- header before it is out of bounds.
unfoldable pub load_header : (mem : ℕ → ℕ) → Elf → (prog_size n prog_pointer : ℕ) → Option ℕ
load_header mem elf prog_size zero prog_pointer = none
load_header mem elf prog_size (suc n) prog_pointer =
    let rest = load_header mem elf prog_size n (add32 prog_pointer prog_size) in
    if ltb prog_pointer elf.start || leb (file_end elf) (add32 prog_pointer 32)
    then none
    else if read32 mem prog_pointer == 1
    then some prog_pointer
    else rest

unfoldable pub find_load : (mem : ℕ → ℕ) → Elf → Header → Option ℕ
find_load mem elf h = load_header mem elf h.prog_size h.prog_count (add32 elf.start h.prog_table)

unfoldable pub prog_offset : (mem : ℕ → ℕ) → ℕ → ℕ
prog_offset mem prog_h = read32 mem (prog_h + 4)

unfoldable pub filesz : (mem : ℕ → ℕ) → ℕ → ℕ
filesz mem prog_h = read32 mem (prog_h + 16)

unfoldable pub memsz : (mem : ℕ → ℕ) → ℕ → ℕ
memsz mem prog_h = read32 mem (prog_h + 20)

-- `given` is what `useConsecutivePages` returns; it is called with alignment 0, by which it divides.
unfoldable pub alloc_for : (given : ℕ) → (mem : ℕ → ℕ) → Elf → Option ℕ → Elf × (ℕ → ℕ)
alloc_for given mem elf none = (elf, mem)
alloc_for given mem elf (some prog_h) =
    let pages = memsz mem prog_h / 4096 + 1 in
    if given == 0 then (record elf { image = 0 }, mem) else (
      record elf { image = given; image_pages = pages },
      k_memset given 0 (mul32 pages 4096) mem,
    )

unfoldable pub elf_alloc_image : (given : ℕ) → (mem : ℕ → ℕ) → Option Elf → Option Elf × (ℕ → ℕ)
elf_alloc_image given mem none = (none, mem)
elf_alloc_image given mem (some elf) =
    let h = elf_read_header_mem mem elf.start in
    let done = alloc_for given mem elf (find_load mem elf h) in
    if elf.start == 0
    then (some elf, mem)
    else if elf.image == 0
    then (if elf_check_header h then (some done.0, done.1) else (some elf, mem))
    else (some elf, mem)

-- The number of pages that `elf_alloc_image` asks `useConsecutivePages` for, if it does.
unfoldable pub image_request : (mem : ℕ → ℕ) → Elf → ℕ
image_request mem elf = elim (find_load mem elf (elf_read_header_mem mem elf.start)) [
  | none ↦ 0
  | some prog_h ↦ memsz mem prog_h / 4096 + 1
]

unfoldable pub copy_from : (mem : ℕ → ℕ) → Elf → Option ℕ → ℕ → ℕ
copy_from mem elf none = mem
copy_from mem elf (some prog_h) =
    let offset = prog_offset mem prog_h in
    let size = filesz mem prog_h in
    if ltb (file_size elf) offset || ltb (file_size elf) (add32 offset size)
    then mem
    else k_memcpy elf.image (add32 elf.start offset) size mem

unfoldable pub elf_assemble_image : (mem : ℕ → ℕ) → Option Elf → ℕ → ℕ
elf_assemble_image mem none = mem
elf_assemble_image mem (some elf) =
    let h = elf_read_header_mem mem elf.start in
    if elf.start == 0 || elf.image == 0
    then mem
    else if elf_check_header h
    then copy_from mem elf (find_load mem elf h)
    else mem

unfoldable pub elf_entry : (mem : ℕ → ℕ) → Option Elf → ℕ
elf_entry mem none = 0
elf_entry mem (some elf) =
    let h = elf_read_header_mem mem elf.start in
    if elf.image == 0 || elf.start == 0
    then 0
    else if elf_check_header h
    then (if leb (mul32 elf.image_pages 4096) h.entry then 0 else add32 elf.image h.entry)
    else 0
