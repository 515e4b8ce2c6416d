-- ===== src/Virtual/Create.antt =====
-- `createAddressSpace` and `destroyAddressSpace`.
use osext.Common.{ℕ, zero, suc, ◌+◌, ◌-◌, ◌*◌, ◌/◌, ◌^◌, Option, none, some, List, [], ◌∷◌}
use osext.Physical.{Table}
use osext.Virtual.Descriptors.{new_sd}
use osext.Virtual.Space.{Space, Machine, search, set_tt, set_space}
use osext.Virtual.Map.{free_pages_from_coarse_page_table, without_index}

-- `n` of the 64 sections of the RAM are left.
unfoldable pub map_ram : ℕ → Space → Space
map_ram zero space = space
map_ram (suc n) space = map_ram n (
    set_tt ((0xec000000 + (63 - n) * 2 ^ 20) / 2 ^ 20)
      (new_sd 1 1 0 1 (0x10000000 + (63 - n) * 2 ^ 20)) space)

unfoldable pub map_io : Space → Space
map_io space = set_tt ((0xe9000000 + 4 * 2 ^ 20) / 2 ^ 20) (new_sd 0 0 0 1 0xc4000000) (
    set_tt ((0xe9000000 + 3 * 2 ^ 20) / 2 ^ 20) (new_sd 0 0 0 1 0xdc000000) (
      set_tt ((0xe9000000 + 2 * 2 ^ 20) / 2 ^ 20) (new_sd 0 0 0 1 0xc0000000) (
        set_tt ((0xe9000000 + 2 ^ 20) / 2 ^ 20) (new_sd 0 0 0 1 0xb0000000)
          (set_tt (0xe9000000 / 2 ^ 20) (new_sd 0 0 0 1 0x90000000) space))))

-- The loop over the sections of the kernel.
unfoldable pub share_kernel : (kernel : Space) → List ℕ → Space → Space
share_kernel kernel [] space = space
share_kernel kernel (section ∷ ss) space =
    share_kernel kernel ss (set_tt (section / 2 ^ 20) (kernel.tt (section / 2 ^ 20)) space)

-- The new space at `s` has the RAM, the devices and the kernel's sections.
unfoldable pub share_space : (s : ℕ) → Machine → Machine
share_space s m =
    let empty : Space = record { tt = λ _. 0; cptds = []; cpts = [] } in
    set_space s (share_kernel m.kernel m.kernel.cptds (map_io (map_ram 64 empty))) m

unfoldable pub list_space : (s : ℕ) → Machine → Machine
list_space s m = record m { address_spaces = s ∷ m.address_spaces }

-- What the requests do, whose caches may grow: `space` is `requestAddressSpace`, which gives the
-- address, with `requestTranslationTable`; `list_entry` is `requestLinkedListEntry`. `none` is a
-- panic.
pub record SpaceRequests : Type 0 where
  pub space : Machine → Option (ℕ × Machine)
  pub list_entry : Machine → Option Machine

unfoldable pub create_address_space : SpaceRequests → Machine → Option (ℕ × Machine)
create_address_space q m = elim (q.space m) [
  | none ↦ none
  | some r ↦ elim (q.list_entry (share_space r.0 r.1)) [
    | none ↦ none
    | some m2 ↦ some (r.0, list_space r.0 m2)
  ]
]

-- The loop runs once for each entry of `cptds`; `none` is a panic, or a fault where an entry of
-- `cpts` is missing.
unfoldable pub free_tables : (cptds cpts : List ℕ) → Machine → Table → Option Table
free_tables [] cpts m t = some t
free_tables (d ∷ ds) [] m t = none
free_tables (d ∷ ds) (cpt ∷ cs) m t = elim (free_pages_from_coarse_page_table cpt m t) [
  | none ↦ none
  | some t' ↦ free_tables ds cs m t'
]

unfoldable pub remove_space : ℕ → List ℕ → List ℕ
remove_space s ss = elim (search 0 s ss) [ none ↦ ss | some i ↦ without_index i ss ]

unfoldable pub destroy_address_space : (s : ℕ) → Machine → Table → Option (Machine × Table)
destroy_address_space s m t = elim (free_tables (m.spaces s).cptds (m.spaces s).cpts m t) [
  | none ↦ none
  | some t' ↦ some (record m { address_spaces = remove_space s m.address_spaces }, t')
]
