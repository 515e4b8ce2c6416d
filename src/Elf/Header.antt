-- ===== src/Elf/Header.antt =====
-- The data of kernel/elf/elf.h, `elf_read_header`, `elf_read_header_mem` and `elf_check_header`.
use osext.Common.{ℕ, ◌+◌, ◌*◌, Bool, false, ◌==◌, ◌&&◌, if◌then◌else◌}

-- Words in the memory, which gives the byte at each address.
unfoldable pub read16 : (ℕ → ℕ) → ℕ → ℕ
read16 mem a = mem a + 0x100 * mem (a + 1)

unfoldable pub read32 : (ℕ → ℕ) → ℕ → ℕ
read32 mem a = mem a + 0x100 * mem (a + 1) + 0x10000 * mem (a + 2) + 0x1000000 * mem (a + 3)

pub record Header : Type 0 where
  pub magic : ℕ × ℕ × ℕ × ℕ
  pub wordwidth : ℕ
  pub endianness : ℕ
  pub elf_h_version : ℕ
  pub abi : ℕ
  pub kind : ℕ
  pub instruction_set : ℕ
  pub elf_version : ℕ
  pub entry : ℕ
  pub prog_table : ℕ
  pub sect_table : ℕ
  pub header_size : ℕ
  pub prog_size : ℕ
  pub prog_count : ℕ
  pub sect_size : ℕ
  pub sect_count : ℕ
  pub sect_strtab : ℕ

-- `struct elf_desc`, with 0 for `NULL`.
pub record Elf : Type 0 where
  pub pages : ℕ
  pub start : ℕ
  pub image : ℕ
  pub image_pages : ℕ

-- The field `type` is `kind`.
unfoldable pub elf_read_header_mem : (ℕ → ℕ) → ℕ → Header
elf_read_header_mem mem header = record {
  magic = (mem header, mem (header + 1), mem (header + 2), mem (header + 3));
  wordwidth = mem (header + 4);
  endianness = mem (header + 5);
  elf_h_version = mem (header + 6);
  abi = mem (header + 7);
  kind = read16 mem (header + 0x10);
  instruction_set = read16 mem (header + 0x12);
  elf_version = read32 mem (header + 0x14);
  entry = read32 mem (header + 0x18);
  prog_table = read32 mem (header + 0x1c);
  sect_table = read32 mem (header + 0x20);
  header_size = read16 mem (header + 0x28);
  prog_size = read16 mem (header + 0x2a);
  prog_count = read16 mem (header + 0x2c);
  sect_size = read16 mem (header + 0x2e);
  sect_count = read16 mem (header + 0x30);
  sect_strtab = read16 mem (header + 0x32);
}

-- `header` is the buffer after `nuc_fread`.
unfoldable pub elf_read_header : (header : ℕ → ℕ) → Header
elf_read_header header = elf_read_header_mem header 0

unfoldable pub elf_check_header : Header → Bool
elf_check_header h =
    if (h.magic.0 == 0x7f) && (h.magic.1 == 0x45) && (h.magic.2 == 0x4c) && (h.magic.3 == 0x46)
    then (if h.wordwidth == 1
        then (if h.endianness == 1 then h.instruction_set == 0x28 else false)
        else false)
    else false
