-- ===== src/Virtual/Map.antt =====
-- `addVirtualPage`, `addVirtualKernelPage`, `addVirtualKernelPage_noncached`, `migrateKernelCPT`,
-- `getKernelCPT` and `freePagesFromCoarsePageTable`. The requests for objects are arguments, with
-- what they do to the machine, since their caches may grow. `migrateKernelCPT` is for when there
-- are enough objects, as its comment says; the address that `requestCPT` returns there is an
-- argument. The processor's caches and the TLB are not part of the model.
use osext.Common.{
  ℕ, zero, suc, ◌+◌, ◌-◌, ◌*◌, ◌/◌, ◌%◌, ◌^◌, ◌==◌, ◌||◌, if◌then◌else◌, Option, none, some, List,
  [], ◌∷◌, ltb, false,
}
use osext.Physical.{Table, set_page_used_bit}
use osext.Virtual.Descriptors.{new_cptd, new_spd}
use osext.Virtual.Space.{
  Space, Machine, get_physical_address, read_word, write_word, clear_words, copy_words, search,
  entry, set_tt, set_space,
}

-- `& (~ 0xfffff)`
unfoldable pub section_of : ℕ → ℕ
section_of adr = adr / 2 ^ 20 * 2 ^ 20

unfoldable pub table_index : ℕ → ℕ
table_index adr = (adr - section_of adr) / 4096

-- A new table for the section, `cpt`, goes to the front of the lists of the space.
unfoldable pub add_lists : (section cpt : ℕ) → Space → Space
add_lists section cpt space = record space {
  cptds = section ∷ space.cptds;
  cpts = cpt ∷ space.cpts;
}

-- What the requests for a new section do: `list_entry` is the first `requestLinkedListEntry`,
-- `table` is the second with `requestCPT`, which gives the address of the table. `none` is a panic.
pub record Requests : Type 0 where
  pub list_entry : Machine → Option Machine
  pub table : Machine → Option (ℕ × Machine)

unfoldable pub add_section : (s section : ℕ) → Machine → Machine
add_section s section m =
    set_space s (record (m.spaces s) { cptds = section ∷ (m.spaces s).cptds }) m

-- Behind the requests: the table is cleared, listed and mapped.
unfoldable pub user_section : (s section cpt : ℕ) → Machine → Machine
user_section s section cpt m =
    let m' =
      set_space s (record (m.spaces s) { cpts = cpt ∷ (m.spaces s).cpts })
        (clear_words 256 cpt m) in
    set_space s
      (set_tt (section / 2 ^ 20) (new_cptd 0 (get_physical_address m' m'.kernel cpt)) (m'.spaces s))
      m'

-- `none` is a panic.
unfoldable pub add_virtual_page : Requests → (s page adr : ℕ) → Machine → Option Machine
add_virtual_page q s page adr m =
    let spd = new_spd 1 1 255 page in
    let section = section_of adr in
    let new : Option Machine = elim (q.list_entry m) [
      | none ↦ none
      | some m1 ↦ elim (q.table (add_section s section m1)) [
        | none ↦ none
        | some r ↦
            some (write_word (r.0 + 4 * table_index adr) spd (user_section s section r.0 r.1))
      ]
    ] in
    elim (search 0 section (m.spaces s).cptds) [
      | none ↦ new
      | some i ↦ elim (entry (m.spaces s).cpts i) [
        | none ↦ none
        | some table ↦ some (write_word (table + 4 * table_index adr) spd m)
      ]
    ]

unfoldable pub kernel_section : (section cpt : ℕ) → Machine → Machine
kernel_section section cpt m =
    let m' = clear_words 256 cpt m in
    let m'' = record m' { kernel = add_lists section cpt m'.kernel } in
    record m'' {
      kernel =
          set_tt (section / 2 ^ 20) (new_cptd 0 (get_physical_address m'' m''.kernel cpt))
            m''.kernel;
    }

-- The loop over `address_spaces` that copies the kernel's descriptor.
unfoldable pub copy_descriptor : (i : ℕ) → List ℕ → Machine → Machine
copy_descriptor i [] m = m
copy_descriptor i (s ∷ ss) m =
    copy_descriptor i ss (set_space s (set_tt i (m.kernel.tt i) (m.spaces s)) m)

-- `c` and `b` are 1 for `addVirtualKernelPage` and 0 for `addVirtualKernelPage_noncached`. Both
-- requests come before the lists change.
unfoldable pub add_kernel_page : (c b : ℕ) → Requests → (page adr : ℕ) → Machine → Option Machine
add_kernel_page c b q page adr m =
    let spd = new_spd c b 85 page in
    let section = section_of adr in
    let new : Option Machine = elim (q.list_entry m) [
      | none ↦ none
      | some m1 ↦ elim (q.table m1) [
        | none ↦ none
        | some r ↦ some (
            copy_descriptor (section / 2 ^ 20) r.1.address_spaces
              (write_word (r.0 + 4 * table_index adr) spd (kernel_section section r.0 r.1)))
      ]
    ] in
    elim (search 0 section m.kernel.cptds) [
      | none ↦ new
      | some i ↦ elim (entry m.kernel.cpts i) [
        | none ↦ none
        | some table ↦ some (write_word (table + 4 * table_index adr) spd m)
      ]
    ]

unfoldable pub add_virtual_kernel_page : Requests → (page adr : ℕ) → Machine → Option Machine
add_virtual_kernel_page q page adr m = add_kernel_page 1 1 q page adr m

unfoldable pub add_virtual_kernel_page_noncached :
    Requests → (page adr : ℕ) → Machine → Option Machine
add_virtual_kernel_page_noncached q page adr m = add_kernel_page 0 0 q page adr m

-- `none` is the return value `NULL`, or the fault where the lists do not correspond.
unfoldable pub get_kernel_cpt : ℕ → Machine → Option ℕ
get_kernel_cpt adr m = elim (search 0 (section_of adr) m.kernel.cptds) [
  | none ↦ none
  | some i ↦ entry m.kernel.cpts i
]

unfoldable pub without_index : ℕ → List ℕ → List ℕ
without_index i [] = []
without_index zero (x ∷ xs) = xs
without_index (suc i) (x ∷ xs) = x ∷ without_index i xs

-- The table that the section has already is taken out of the lists.
unfoldable pub drop_section : ℕ → Space → Space
drop_section section space = elim (search 0 section space.cptds) [
  | none ↦ space
  | some i ↦ record space { cptds = without_index i space.cptds; cpts = without_index i space.cpts }
]

unfoldable pub migrate_kernel_cpt : (section migrate_cpt pages cpt : ℕ) → Machine → Machine
migrate_kernel_cpt section migrate_cpt pages cpt m =
    let n = if ltb 256 pages then 256 else pages in
    let m' =
      clear_words 256 cpt (record m { kernel = drop_section (section_of section) m.kernel }) in
    let m'' =
      copy_words n cpt migrate_cpt
        (record m' { kernel = add_lists (section_of section) cpt m'.kernel }) in
    record m'' {
      kernel =
          set_tt (section / 2 ^ 20) (new_cptd 0 (get_physical_address m'' m''.kernel cpt))
            m''.kernel;
    }

-- `n` rounds of the loop over the words of the table are left, from address `adr` on; `none` is a
-- panic.
unfoldable pub free_pages_loop : (n adr : ℕ) → Machine → Table → Option Table
free_pages_loop zero adr m t = some t
free_pages_loop (suc n) adr m t =
    let w = read_word m adr in
    let skipped = free_pages_loop n (adr + 4) m t in
    let freed = free_pages_loop n (adr + 4) m (set_page_used_bit (w / 4096 * 4096) false t) in
    if (w % 4 == 1) || (w % 4 == 3) then none else if w % 4 == 0 then skipped else freed

unfoldable pub free_pages_from_coarse_page_table : (cpt : ℕ) → Machine → Table → Option Table
free_pages_from_coarse_page_table cpt m t = free_pages_loop 1024 cpt m t
