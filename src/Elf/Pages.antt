-- ===== src/Elf/Pages.antt =====
-- `elf_load_file` and the functions that give pages back, on the table of the physical memory.
use osext.Common.{ℕ, ◌+◌, ◌/◌, Bool, true, false, ◌==◌, if◌then◌else◌, Option, none, some}
use osext.Physical.{Table, free_consecutive_pages}
use osext.Elf.Header.{Elf}

-- `allocated` says whether `kmalloc` gives a descriptor, `given` is what `useConsecutivePages`
-- returns, and `nuc_fread` what reading a number of bytes to an address does to the memory.
unfoldable pub elf_load_file :
    (nuc_fread : (to size : ℕ) → (ℕ → ℕ) → ℕ → ℕ)
    → (allocated : Bool) → (given size : ℕ) → (mem : ℕ → ℕ) → Option Elf × (ℕ → ℕ)
elf_load_file nuc_fread false given size mem = (none, mem)
elf_load_file nuc_fread true given size mem = if given == 0 then (none, mem) else (
  some (record { pages = size / 4096 + 1; start = given; image = 0; image_pages = 0 }),
  nuc_fread given size mem,
)

-- A call of `freeConsecutivePages`, unless the address is `NULL`.
unfoldable pub free_unless_null : (address pages : ℕ) → Table → Table
free_unless_null address pages t =
    if address == 0 then t else free_consecutive_pages address pages t

-- The descriptor is freed by `kfree_hint`, so it is no result.
unfoldable pub elf_destroy : Option Elf → Table → Table
elf_destroy none t = t
elf_destroy (some elf) t =
    free_unless_null elf.image elf.image_pages (free_unless_null elf.start elf.pages t)

unfoldable pub elf_destroy_without_image : Option Elf → Table → Table
elf_destroy_without_image none t = t
elf_destroy_without_image (some elf) t = free_unless_null elf.start elf.pages t

unfoldable pub elf_destroy_file_mem : Option Elf → Table → Option Elf × Table
elf_destroy_file_mem none t = (none, t)
elf_destroy_file_mem (some elf) t =
    (some (record elf { start = 0; pages = 0 }), free_unless_null elf.start elf.pages t)

unfoldable pub elf_destroy_image : Option Elf → Table → Option Elf × Table
elf_destroy_image none t = (none, t)
elf_destroy_image (some elf) t =
    (some (record elf { image = 0; image_pages = 0 }), free_unless_null elf.image elf.image_pages t)
