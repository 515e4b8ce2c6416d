-- ===== src/Modules/Steps.antt =====
-- Installing and uninstalling, in any order.
use osext.Common.{
  ℕ, ◌+◌, ◌/◌, false, ◌==◌, some, List, [], ◌∷◌, ◌≡◌, refl, ap, ◌∙◌, sym, Bool-cases, inl, inr, ◌⊎◌,
  Option-cases,
}
use mathlib.Core.Path.{subst}
use osext.Elf.Header.{Elf, elf_read_header, elf_check_header}
use osext.Elf.Image.{image_request, elf_alloc_image, elf_entry}
use osext.Elf.Pages.{elf_load_file}
use osext.Modules.Install.{
  Module, Loader, Answers, module_path, name_copy, is_installed, start_module, make_image,
  load_module, mark_pages, install_path, module_install, module_uninstall,
}
use osext.Modules.Names.{name_copy-Same, not_installed-Same, Distinct, uninstall-Distinct}

-- The list is the same, or has a module of the name in front.
abbrev Extended : (name : ℕ → ℕ) → List Module → List Module → Type 0
Extended name ms ms' = (ms' ≡ ms) ⊎ ((m : Module) × (m.name ≡ name_copy name) × (ms' ≡ m ∷ ms))

start_module-Extended :
    (a : Answers) (name : ℕ → ℕ) (l : Loader) (elf : Elf)
    → Extended name l.modules (start_module a name l elf).modules
unfolding start_module
start_module-Extended a name l elf =
    let entry = elf_entry l.mem (some elf) in
    elim (Bool-cases (entry == 0)) [
      | inl e ↦ rw e (inl refl)
      | inr e ↦ elim (Bool-cases a.module_allocated) [
        | inr f ↦ rw (e, f) (inl refl)
        | inl f ↦ elim (Bool-cases a.name_allocated) [
          | inr g ↦ rw (e, f, g) (inl refl)
          | inl g ↦ elim (Bool-cases (a.module_entry entry l.mem == 0)) [
            | inl k ↦ rw (e, f, g, k) (inl refl)
            | inr k ↦ rw (e, f, g, k) (inr (_, refl, refl))
          ]
        ]
      ]
    ]

make_image-Extended :
    (a : Answers) (name : ℕ → ℕ) (l : Loader) (elf : Elf)
    → Extended name l.modules (make_image a name l elf).modules
unfolding make_image
make_image-Extended a name l elf =
    let given = a.use_consecutive_pages (image_request l.mem elf) l.table in
    elim (Option-cases (elf_alloc_image given.0 l.mem (some elf)).0) [
      | inl e ↦ rw (make_image, e) (inl refl)
      | inr e ↦
          let f = e.1 in
          elim (Bool-cases (e.0.image == 0)) [
            | inl z ↦ rw (make_image, f, z) (inl refl)
            | inr z ↦ rw (make_image, f, z) (start_module-Extended a name _ e.0)
          ]
    ]

load_module-Extended :
    (a : Answers) (name : ℕ → ℕ) (size : ℕ) (l : Loader)
    → Extended name l.modules (load_module a name size l).modules
unfolding load_module
load_module-Extended a name size l =
    let given = a.use_consecutive_pages (size / 4096 + 1) (mark_pages a.descriptor_marks l.table) in
    elim (Option-cases (elf_load_file a.nuc_fread a.descriptor given.0 size l.mem).0) [
      | inl e ↦ rw (load_module, e) (inl refl)
      | inr e ↦ let f = e.1 in rw (load_module, f) (make_image-Extended a name _ e.0)
    ]

install_path-Extended :
    (a : Answers) (name : ℕ → ℕ) (l : Loader)
    → Extended name l.modules (install_path a name l).modules
unfolding install_path
install_path-Extended a name l = elim (Option-cases (a.nuc_stat (module_path name))) [
  | inl f ↦ rw (install_path, f) (inl refl)
  | inr f ↦
      let g = f.1 in
      elim (Bool-cases (a.nuc_fopen (module_path name))) [
        | inr k ↦ rw (install_path, g, k) (inl refl)
        | inl k ↦ elim (Bool-cases (elf_check_header (elf_read_header a.header))) [
          | inr c ↦ rw (install_path, g, k, c) (inl refl)
          | inl c ↦ rw (install_path, g, k, c) (load_module-Extended a name f.0 l)
        ]
      ]
]

module_install-Extended :
    (a : Answers) (name : ℕ → ℕ) (l : Loader)
    → is_installed name l.modules ≡ false
    → Extended name l.modules (module_install a name l).modules
unfolding module_install
module_install-Extended a name l h = rw (module_install, h) (install_path-Extended a name _)

module_install-Distinct :
    (a : Answers) (name : ℕ → ℕ) (l : Loader)
    → Distinct l.modules
    → Distinct (module_install a name l).modules
unfolding module_install
module_install-Distinct a name l d = elim (Bool-cases (is_installed name l.modules)) [
  | inl e ↦ rw (module_install, e) d
  | inr e ↦ elim (module_install-Extended a name l e) [
    | inl s ↦ subst Distinct (sym s) d
    | inr x ↦ subst Distinct (sym x.2) (
      ap (λ n. is_installed n l.modules) x.1
          ∙ not_installed-Same name (name_copy name) l.modules (name_copy-Same name) e,
      d,
    )
  ]
]

pub data Step (l : Loader) : Loader → Type 0 where
  installed : (a : Answers) (name : ℕ → ℕ) → Step l (module_install a name l)
  uninstalled : (name : ℕ → ℕ) → Step l (module_uninstall name l)

pub data Reach (l : Loader) : Loader → Type 0 where
  start : Reach l l
  next : {l' l'' : Loader} → Reach l l' → Step l' l'' → Reach l l''

pub Reach-Distinct : (l l' : Loader) → l.modules ≡ [] → Reach l l' → Distinct l'.modules
unfolding module_uninstall
Reach-Distinct l l' e start = subst Distinct (sym e) tt
Reach-Distinct l l' e (next {l' = k} r (installed a name)) =
    module_install-Distinct a name k (Reach-Distinct l k e r)
Reach-Distinct l l' e (next {l' = k} r (uninstalled name)) =
    (uninstall-Distinct name k.modules k.table (Reach-Distinct l k e r)).0

-- After any sequence of installs and uninstalls that begins without modules, no two installed
-- modules have equal names, and uninstalling a name leaves no module of that name.
pub Reach-Distinct_and_gone :
    (l l' : Loader) (name : ℕ → ℕ)
    → l.modules ≡ []
    → Reach l l'
    → Distinct l'.modules × (is_installed name (module_uninstall name l').modules ≡ false)
unfolding module_uninstall
Reach-Distinct_and_gone l l' name e r =
    let d = Reach-Distinct l l' e r in (d, (uninstall-Distinct name l'.modules l'.table d).1)
