-- ===== src/Modules/Install.antt =====
-- `module_install` and `module_uninstall`.
use osext.Common.{
  ℕ, ◌+◌, ◌-◌, ◌/◌, Bool, true, false, ◌==◌, ◌&&◌, ltb, leb, if◌then◌else◌, Option, none, some,
  List, [], ◌∷◌,
}
use osext.Physical.{Table, set_page_used_bit, free_consecutive_pages}
use osext.Libk.Strings.{k_strlen, k_streq}
use osext.Elf.Header.{Elf, elf_read_header, elf_check_header}
use osext.Elf.Image.{image_request, elf_alloc_image, elf_assemble_image, elf_entry}
use osext.Elf.Sections.{elf_fix_got}
use osext.Elf.Pages.{elf_load_file, elf_destroy, elf_destroy_without_image}
use osext.Modules.Exports.{string}

-- `struct module`; `modules` is the list.
pub record Module : Type 0 where
  pub name : ℕ → ℕ
  pub module_end : ℕ
  pub start : ℕ
  pub pages : ℕ

pub record Loader : Type 0 where
  pub modules : List Module
  pub mem : ℕ → ℕ
  pub table : Table

-- The pages that a call marks, in their order, with the value of the bit.
abbrev pub Marks : Type 0
Marks = List (ℕ × Bool)

unfoldable pub mark_pages : Marks → Table → Table
mark_pages [] t = t
mark_pages (m ∷ ms) t = mark_pages ms (set_page_used_bit m.0 m.1 t)

-- What the calls return that leave the repository, `kmalloc`, and `useConsecutivePages`, which is
-- called with alignment 0 and gives the address, 0 for `NULL`, and the table. `module_entry` is what
-- the entry of the module returns. The pages that the growth of caches takes in the four calls of
-- `kmalloc`, for the path, the descriptor of the file, the module and its name, and those that the
-- entry takes or gives back, are the marks. What the entry writes to the memory is not modelled.
pub record Answers : Type 0 where
  pub path_marks : Marks
  pub nuc_stat : (path : ℕ → ℕ) → Option ℕ
  pub nuc_fopen : (path : ℕ → ℕ) → Bool
  pub header : ℕ → ℕ
  pub nuc_fread : (to size : ℕ) → (ℕ → ℕ) → ℕ → ℕ
  pub descriptor : Bool
  pub descriptor_marks : Marks
  pub use_consecutive_pages : (size : ℕ) → Table → ℕ × Table
  pub module_allocated : Bool
  pub module_marks : Marks
  pub name_allocated : Bool
  pub name_marks : Marks
  pub module_entry : (entry : ℕ) → (mem : ℕ → ℕ) → ℕ
  pub entry_marks : Marks

-- A `k_memcpy` of `n` characters into a string, at `i`.
unfoldable pub copy_in : (i n : ℕ) → (from to : ℕ → ℕ) → ℕ → ℕ
copy_in i n from to j = if leb i j && ltb j (i + n) then from (j - i) else to j

-- "/documents/modules/" and ".elf.tns".
abbrev pub modules_path : List ℕ
modules_path =
    47 ∷ 100 ∷ 111 ∷ 99 ∷ 117 ∷ 109 ∷ 101 ∷ 110 ∷ 116 ∷ 115 ∷ 47 ∷ 109 ∷ 111 ∷ 100 ∷ 117 ∷ 108 ∷ 101
    ∷ 115 ∷ 47 ∷ []

abbrev pub extension : List ℕ
extension = 46 ∷ 101 ∷ 108 ∷ 102 ∷ 46 ∷ 116 ∷ 110 ∷ 115 ∷ []

unfoldable pub module_path : (name : ℕ → ℕ) → ℕ → ℕ
module_path name =
    let start = k_strlen (string modules_path) 100 in
    copy_in (start + k_strlen name 100) (k_strlen (string extension) 100) (string extension)
      (copy_in start (k_strlen name 100) name (copy_in 0 start (string modules_path) (λ _. 0)))

unfoldable pub name_copy : (name : ℕ → ℕ) → ℕ → ℕ
name_copy name = copy_in 0 (k_strlen name 100) name (λ _. 0)

unfoldable pub is_installed : (name : ℕ → ℕ) → List Module → Bool
is_installed name [] = false
is_installed name (m ∷ ms) =
    let rest = is_installed name ms in if k_streq name m.name 100 then true else rest

-- From the assembled image on. `t1`, `t2` and `t3` are the tables behind the two calls of `kmalloc`
-- and the call of the entry.
unfoldable pub start_module : Answers → (name : ℕ → ℕ) → Loader → Elf → Loader
start_module a name l elf =
    let destroyed = λ (t : Table). record l { table = elf_destroy (some elf) t } in
    let entry = elf_entry l.mem (some elf) in
    let module_end = a.module_entry entry l.mem in
    let t1 = mark_pages a.module_marks l.table in
    let t2 = mark_pages a.name_marks t1 in
    let t3 = mark_pages a.entry_marks t2 in
    let m : Module = record {
      name = name_copy name;
      module_end = module_end;
      start = elf.image;
      pages = elf.image_pages;
    } in
    if entry == 0
    then destroyed l.table
    else if a.module_allocated
    then (if a.name_allocated
        then (if module_end == 0 then destroyed t3 else record l {
          modules = m ∷ l.modules;
          table = elf_destroy_without_image (some elf) t3;
        })
        else destroyed t2)
    else destroyed t1

-- With the file in the memory.
unfoldable pub make_image : Answers → (name : ℕ → ℕ) → Loader → Elf → Loader
make_image a name l elf =
    let given = a.use_consecutive_pages (image_request l.mem elf) l.table in
    let made = elf_alloc_image given.0 l.mem (some elf) in
    elim made.0 [
      | none ↦ l
      | some elf' ↦
          let fixed = elf_fix_got made.1 (some elf') in
          let image = elf_assemble_image fixed (some elf') in
          let started = start_module a name (record l { mem = image; table = given.1 }) elf' in
          if elf'.image == 0
          then record l { mem = made.1; table = elf_destroy (some elf') l.table }
          else started
    ]

unfoldable pub load_module : Answers → (name : ℕ → ℕ) → (size : ℕ) → Loader → Loader
load_module a name size l =
    let t = mark_pages a.descriptor_marks l.table in
    let given = a.use_consecutive_pages (size / 4096 + 1) t in
    let file = elf_load_file a.nuc_fread a.descriptor given.0 size l.mem in
    elim file.0 [
      | none ↦ record l { mem = file.1; table = t }
      | some elf ↦ make_image a name (record l { mem = file.1; table = given.1 }) elf
    ]

-- From the files on, with the path.
unfoldable pub install_path : Answers → (name : ℕ → ℕ) → Loader → Loader
install_path a name l = elim (a.nuc_stat (module_path name)) [
  | none ↦ l
  | some size ↦
      let loaded = load_module a name size l in
      if a.nuc_fopen (module_path name)
      then (if elf_check_header (elf_read_header a.header) then loaded else l)
      else l
]

unfoldable pub module_install : Answers → (name : ℕ → ℕ) → Loader → Loader
module_install a name l =
    if is_installed name l.modules
    then l
    else install_path a name (record l { table = mark_pages a.path_marks l.table })

-- The modules without the first of the name, and the table.
unfoldable pub uninstall : (name : ℕ → ℕ) → List Module → Table → List Module × Table
uninstall name [] t = ([], t)
uninstall name (m ∷ ms) t =
    let rest = uninstall name ms t in
    if k_streq name m.name 100
    then (ms, free_consecutive_pages m.start m.pages t)
    else (m ∷ rest.0, rest.1)

-- Calling `module_end` is not part of the model.
unfoldable pub module_uninstall : (name : ℕ → ℕ) → Loader → Loader
module_uninstall name l =
    let r = uninstall name l.modules l.table in record l { modules = r.0; table = r.1 }
