-- ===== src/Modules/Outcome.antt =====
-- What installing a module comes to.
use osext.Common.{
  ℕ, ◌+◌, ◌/◌, true, false, if◌then◌else◌, ◌∙◌, ◌==◌, some, List, ◌∷◌, ◌≡◌, ◌≢◌, refl, ap, sym,
  arith, Bool-cases, inl, inr, ◌⊎◌, Option-cases,
}
use osext.Physical.{Table}
use osext.Physical.Valid.{IsTable}
use osext.Physical.Consecutive.{GivenRun, covers}
use osext.Elf.Header.{Elf, elf_read_header, elf_read_header_mem, elf_check_header}
use osext.Elf.Image.{memsz, find_load, image_request, alloc_for, elf_alloc_image, elf_entry}
use osext.Elf.Pages.{elf_load_file, free_unless_null, elf_destroy, elf_destroy_without_image}
use osext.Modules.Install.{
  Module, Loader, Answers, module_path, is_installed, start_module, make_image, load_module,
  mark_pages, install_path, module_install,
}
use osext.Modules.Balance.{
  OnPages, UsesMore, SamePages, NotMarked, AlignedMarks, Spares, Spares-refl, Spares-trans,
  mark_pages-Spares, freed_run, freed_first, freed_both,
}

-- `useConsecutivePages` gives a run of free pages, or NULL.
abbrev pub GivesRuns : Answers → Type 0
GivesRuns a =
    (size : ℕ) (t : Table)
    → IsTable t
    → (a.use_consecutive_pages size t).0 ≢ 0
    → GivenRun t size 1 (a.use_consecutive_pages size t).0 (a.use_consecutive_pages size t).1

-- The page is none of those that `kmalloc` and the module's entry mark.
pub record Elsewhere (a : Answers) (q : ℕ) : Type 0 where
  pub path : NotMarked a.path_marks q
  pub descriptor : NotMarked a.descriptor_marks q
  pub installed : NotMarked a.module_marks q
  pub name : NotMarked a.name_marks q
  pub entry : NotMarked a.entry_marks q

-- They mark pages, by their addresses.
pub record MarksPages (a : Answers) : Type 0 where
  pub path : AlignedMarks a.path_marks
  pub descriptor : AlignedMarks a.descriptor_marks
  pub installed : AlignedMarks a.module_marks
  pub name : AlignedMarks a.name_marks
  pub entry : AlignedMarks a.entry_marks

-- Nothing is installed and the pages are as before, or one module is, and the pages of its image
-- are in use besides; of the pages elsewhere.
pub data Balanced (these : OnPages) (ms : List Module) (t : Table) (l : Loader) : Type 0 where
  kept : l.modules ≡ ms → SamePages these t l.table → Balanced these ms t l
  added :
      (m : Module)
      → l.modules ≡ m ∷ ms
      → UsesMore these t m.start m.pages l.table
      → Balanced these ms t l

-- With a call before.
Balanced-before :
    (these : OnPages) (ms : List Module) (t t' : Table) (l : Loader)
    → Spares these t t'
    → Balanced these ms t' l
    → Balanced these ms t l
Balanced-before these ms t t' l s (kept e h) =
    kept e (λ q p i al. h q p (s.of_table q i) al ∙ s.same q p i al)
Balanced-before these ms t t' l s (added m e h) = added m e (λ q p i al.
    h q p (s.of_table q i) al
    ∙ ap (λ u. if covers m.start 0 m.pages q then true else u) (s.same q p i al))

-- The descriptor that `elf_load_file` makes.
abbrev loaded : (pages start : ℕ) → Elf
loaded pages start = record { pages = pages; start = start; image = 0; image_pages = 0 }

abbrev imaged : (pages start image image_pages : ℕ) → Elf
imaged pages start image image_pages = record {
  pages = pages;
  start = start;
  image = image;
  image_pages = image_pages;
}

alloc_cases :
    (given : ℕ) (mem : ℕ → ℕ) (pages start : ℕ)
    → let r = elf_alloc_image given mem (some (loaded pages start)) in
      ((r.0 ≡ some (loaded pages start))
        ⊎ ((given ≢ 0)
            × (r.0 ≡ some (imaged pages start given (image_request mem (loaded pages start))))))
unfolding elf_alloc_image alloc_for image_request
alloc_cases given mem pages start =
    let elf = loaded pages start in
    let h = elf_read_header_mem mem start in
    elim (Bool-cases (start == 0)) [
      | inl e ↦ inl (rw e refl)
      | inr e ↦ elim (Bool-cases (elf_check_header h)) [
        | inr bad ↦ inl (rw (e, bad) refl)
        | inl good ↦ elim (Option-cases (find_load mem elf h)) [
          | inl missing ↦ inl (rw (e, good, missing) refl)
          | inr found ↦ elim (Bool-cases (given == 0)) [
            | inl z ↦ let f = found.1 in inl (rw (e, good, f, z) refl)
            | inr nz ↦
                let f = found.1 in
                let n : given ≢ 0 = ground (arith, nz) in
                let w : image_request mem elf ≡ memsz mem found.0 / 4096 + 1 =
                  rw (image_request, f) refl in
                inr (n, rw (e, good, f, nz) (ap (λ k. some (imaged pages start given k)) (sym w)))
          ]
        ]
      ]
    ]

start_module-Balanced :
    (P : OnPages) (a : Answers) (name : ℕ → ℕ) (l : Loader) (elf : Elf) (t t' : Table)
    → ((q : ℕ) → P q → Elsewhere a q)
    → MarksPages a
    → GivenRun t elf.pages 1 elf.start t'
    → elf.start ≢ 0
    → GivenRun t' elf.image_pages 1 elf.image l.table
    → elf.image ≢ 0
    → Balanced P l.modules t (start_module a name l elf)
unfolding start_module elf_destroy elf_destroy_without_image
start_module-Balanced P a name l elf t t' out al file started image made =
    let entry = elf_entry l.mem (some elf) in
    let t1 = mark_pages a.module_marks l.table in
    let t2 = mark_pages a.name_marks t1 in
    let t3 = mark_pages a.entry_marks t2 in
    let s0 = Spares-refl P l.table image.valid in
    let s1 =
      mark_pages-Spares P a.module_marks l.table al.installed (λ q e. (out q e).installed)
        image.valid in
    let s2 =
      Spares-trans P l.table t1 t2 s1
        (mark_pages-Spares P a.name_marks t1 al.name (λ q e. (out q e).name) s1.valid) in
    let s3 =
      Spares-trans P l.table t2 t3 s2
        (mark_pages-Spares P a.entry_marks t2 al.entry (λ q e. (out q e).entry) s2.valid) in
    let both = λ (u : Table) (s : Spares P l.table u).
      freed_both P t t' l.table u elf.pages elf.start elf.image_pages elf.image file started image
        made s in
    let first =
      freed_first P t t' l.table t3 elf.pages elf.start elf.image_pages elf.image file started image
        s3 in
    elim (Bool-cases (entry == 0)) [
      | inl e ↦ rw e (kept refl (both l.table s0))
      | inr e ↦ elim (Bool-cases a.module_allocated) [
        | inr f ↦ rw (e, f) (kept refl (both t1 s1))
        | inl f ↦ elim (Bool-cases a.name_allocated) [
          | inr g ↦ rw (e, f, g) (kept refl (both t2 s2))
          | inl g ↦ elim (Bool-cases (a.module_entry entry l.mem == 0)) [
            | inl k ↦ rw (e, f, g, k) (kept refl (both t3 s3))
            | inr k ↦ rw (e, f, g, k) (added _ refl first)
          ]
        ]
      ]
    ]

make_image-Balanced :
    (P : OnPages) (a : Answers) (name : ℕ → ℕ) (l : Loader) (t : Table) (pages start : ℕ)
    → ((q : ℕ) → P q → Elsewhere a q)
    → MarksPages a
    → GivesRuns a
    → GivenRun t pages 1 start l.table
    → start ≢ 0
    → Balanced P l.modules t (make_image a name l (loaded pages start))
unfolding make_image elf_destroy free_unless_null
make_image-Balanced P a name l t pages start out al gives file started =
    let request = image_request l.mem (loaded pages start) in
    let given = a.use_consecutive_pages request l.table in
    elim (alloc_cases given.0 l.mem pages start) [
      | inl e ↦ rw (make_image, e) (kept refl (freed_run P t l.table pages start file started))
      | inr e ↦
          let f = e.1 in
          let z : (given.0 == 0) ≡ false = ground (arith, e.0) in
          rw (make_image, f, z)
            (start_module-Balanced P a name _ (imaged pages start given.0 request) t l.table out al
              file started (gives request l.table file.valid e.0) e.0)
    ]

load_module-Balanced :
    (P : OnPages) (a : Answers) (name : ℕ → ℕ) (size : ℕ) (l : Loader)
    → ((q : ℕ) → P q → Elsewhere a q)
    → MarksPages a
    → GivesRuns a
    → IsTable l.table
    → Balanced P l.modules l.table (load_module a name size l)
unfolding load_module elf_load_file
load_module-Balanced P a name size l out al gives valid =
    let t = mark_pages a.descriptor_marks l.table in
    let s =
      mark_pages-Spares P a.descriptor_marks l.table al.descriptor (λ q e. (out q e).descriptor)
        valid in
    let given = a.use_consecutive_pages (size / 4096 + 1) t in
    elim (Bool-cases a.descriptor) [
      | inr e ↦ rw (load_module, e) (kept refl s.same)
      | inl e ↦ elim (Bool-cases (given.0 == 0)) [
        | inl z ↦ rw (load_module, e, z) (kept refl s.same)
        | inr nz ↦
            let n : given.0 ≢ 0 = ground (arith, nz) in
            rw (load_module, e, nz)
              (Balanced-before P l.modules l.table t _ s (
                make_image-Balanced P a name _ t (size / 4096 + 1) given.0 out al gives
                  (gives (size / 4096 + 1) t s.valid n) n))
      ]
    ]

install_path-Balanced :
    (P : OnPages) (a : Answers) (name : ℕ → ℕ) (l : Loader)
    → ((q : ℕ) → P q → Elsewhere a q)
    → MarksPages a
    → GivesRuns a
    → IsTable l.table
    → Balanced P l.modules l.table (install_path a name l)
unfolding install_path
install_path-Balanced P a name l out al gives valid =
    let same : Balanced P l.modules l.table l = kept refl (λ q e i p. refl) in
    elim (Option-cases (a.nuc_stat (module_path name))) [
      | inl f ↦ rw (install_path, f) same
      | inr f ↦
          let g = f.1 in
          elim (Bool-cases (a.nuc_fopen (module_path name))) [
            | inr h ↦ rw (install_path, g, h) same
            | inl h ↦ elim (Bool-cases (elf_check_header (elf_read_header a.header))) [
              | inr k ↦ rw (install_path, g, h, k) same
              | inl k ↦
                  rw (install_path, g, h, k)
                    (load_module-Balanced P a name f.0 l out al gives valid)
            ]
          ]
    ]

-- Installing a module, when useConsecutivePages gives runs of free pages or NULL, either leaves the
-- list of modules as it was or puts one module in front of it. Of the pages of the table's blocks
-- but those that kmalloc, where its caches grow, or the module's own entry mark as used or free in
-- the meantime, all are then as they were in the first case, and in the second exactly the pages of
-- the module's image are in use besides those that were. The marks are at addresses of pages.
pub module_install-Balanced :
    (a : Answers) (name : ℕ → ℕ) (l : Loader)
    → MarksPages a
    → GivesRuns a
    → IsTable l.table
    → Balanced (Elsewhere a) l.modules l.table (module_install a name l)
unfolding module_install
module_install-Balanced a name l al gives valid =
    let t = mark_pages a.path_marks l.table in
    let s = mark_pages-Spares (Elsewhere a) a.path_marks l.table al.path (λ q e. e.path) valid in
    elim (Bool-cases (is_installed name l.modules)) [
      | inl e ↦ rw e (kept refl (λ q c i p. refl))
      | inr e ↦ rw e (
          Balanced-before (Elsewhere a) l.modules l.table t _ s (
            install_path-Balanced (Elsewhere a) a name (record l { table = t }) (λ q e. e) al gives
              s.valid))
    ]
