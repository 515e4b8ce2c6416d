-- ===== src/Modules/Tests.antt =====
-- Installing a module from a file of 180 bytes.
use osext.Common.{
  ℕ, ◌+◌, ◌-◌, true, false, ◌&&◌, ltb, leb, if◌then◌else◌, Option, none, some, List, [], ◌∷◌, ◌≡◌,
  refl, ap, sym, arith, Option-cases, inl, inr, ◌↔◌, get_elem?, get_or, map,
}
use mathlib.Core.Path.{subst}
use osext.Physical.{
  Table, use_consecutive_pages, find_run, find_run_in, run_is_free, mark_run, use_run, is_page_used,
  in_block, page_offset, get_bit128, set_bit128, set_page_used_bit, page_at,
}
use osext.Physical.Valid.{IsTable}
use osext.Physical.Consecutive.{GivenRun, use_consecutive_pages-GivenRun}
use osext.Elf.Image.{
  elf_alloc_image, alloc_for, image_request, find_load, load_header, file_end, file_size, memsz,
  filesz, prog_offset, elf_assemble_image, copy_from, elf_entry,
}
use osext.Elf.Header.{elf_read_header, elf_read_header_mem, elf_check_header, read16, read32}
use osext.Elf.Sections.{
  elf_fix_got, patch_got, find_section, section_named, sect_offset, sect_bytes, got_name,
  patch_entries, patch_entry, write32,
}
use osext.Elf.Pages.{elf_load_file}
use osext.Libk.Memory.{store, k_memcpy, k_memset}
use osext.Libk.Strings.{k_strlen, strlen_from, k_strcmp, strcmp_from}
use osext.Elf.Sample.{bytes}
use osext.Modules.Install.{
  Loader, Answers, load_module, make_image, start_module, module_path, copy_in, is_installed,
  mark_pages, install_path, module_install, module_uninstall,
}
use osext.Modules.Exports.{string, modules_export_names, module_search_function}
use osext.Modules.Names.{Same, Distinct}
use osext.Modules.Steps.{start, next, installed, Reach-Distinct_and_gone}
use osext.Modules.Outcome.{GivesRuns, Elsewhere, MarksPages, Balanced, module_install-Balanced}
use osext.Modules.Search.{module_search_function_iff}

-- Eight pages.
abbrev table : Table
table =
    record {
      unaligned = 0x10000800;
      start = 0x10001000;
      size = 8;
      used = 1;
      used2 = 0;
      dirty = 0;
      dirty2 = 0;
      pageout = 0;
      pageout2 = 0;
    }
    ∷ []

table-IsTable : IsTable table
table-IsTable = omega arith

abbrev answer : Table → Option (ℕ × Table) → ℕ × Table
answer t none = (0, t)
answer t (some r) = r

-- All calls succeed. The cache for names grows by a page, and the module takes one; pages are given
-- at any multiple of the page size.
abbrev answers : Answers
answers = record {
  path_marks = [];
  nuc_stat = λ path. some 180;
  nuc_fopen = λ path. true;
  header = λ i. get_or (bytes 8) i 0;
  nuc_fread =
      λ to size mem q. if leb to q && ltb q (to + size) then get_or (bytes 8) (q - to) 0 else mem q;
  descriptor = true;
  descriptor_marks = [];
  use_consecutive_pages = λ size t. answer t (use_consecutive_pages size 1 t);
  module_allocated = true;
  module_marks = [];
  name_allocated = true;
  name_marks = (0x10006000, true) ∷ [];
  module_entry = λ entry mem. entry + 8;
  entry_marks = (0x10007000, true) ∷ [];
}

answers-GivesRuns : GivesRuns answers
answers-GivesRuns size t valid h = elim (Option-cases (use_consecutive_pages size 1 t)) [
  | inl e ↦ absurd (h (ap (λ r. (answer t r).0) e))
  | inr e ↦
      let r = e.0 in
      subst (λ o. GivenRun t size 1 (answer t o).0 (answer t o).1) (sym e.1)
        (use_consecutive_pages-GivenRun t r.1 size 1 r.0 valid e.1)
]

abbrev hello : ℕ → ℕ
hello i = get_or (104 ∷ 101 ∷ 108 ∷ 108 ∷ 111 ∷ []) i 0

abbrev empty : Loader
empty = record { modules = []; mem = λ _. 0; table = table }

answers-MarksPages : MarksPages answers
answers-MarksPages = record {
  path = tt;
  descriptor = tt;
  installed = tt;
  name = (refl, tt);
  entry = (refl, tt);
}

module_install-Balanced_example :
    Balanced (Elsewhere answers) [] table (module_install answers hello empty)
module_install-Balanced_example =
    module_install-Balanced answers hello empty answers-MarksPages answers-GivesRuns table-IsTable

Reach-Distinct_and_gone_example :
    let l = module_install answers hello (module_install answers hello empty) in
    Distinct l.modules × (is_installed hello (module_uninstall hello l).modules ≡ false)
Reach-Distinct_and_gone_example =
    Reach-Distinct_and_gone empty
      (module_install answers hello (module_install answers hello empty)) hello refl
      (next (next start (installed answers hello)) (installed answers hello))

-- The string "panic".
abbrev panic : ℕ → ℕ
panic i = get_or (112 ∷ 97 ∷ 110 ∷ 105 ∷ 99 ∷ []) i 0

module_search_function_iff_example :
    ((module_search_function panic ≡ some 17)
      ↔ ((n : List ℕ) × (get_elem? modules_export_names 17 ≡ some n) × Same panic (string n)))
module_search_function_iff_example = module_search_function_iff panic 17

-- The entry of the module is in its image, whose page is the first behind the file's.
hello_entry : map (λ m. m.module_end) (module_install answers hello empty).modules ≡ 0x1000300c ∷ []
unfolding module_install install_path mark_pages load_module make_image start_module is_installed
    module_path elf_load_file elf_alloc_image alloc_for image_request find_load load_header file_end
    file_size memsz filesz prog_offset elf_read_header elf_read_header_mem elf_check_header read16
    read32 elf_fix_got patch_got find_section section_named sect_offset sect_bytes got_name
    patch_entries patch_entry write32 store k_strlen strlen_from k_strcmp strcmp_from
    elf_assemble_image copy_from k_memcpy k_memset elf_entry string copy_in use_consecutive_pages
    find_run find_run_in run_is_free mark_run use_run is_page_used in_block page_offset get_bit128
    set_bit128 set_page_used_bit page_at
hello_entry = refl
