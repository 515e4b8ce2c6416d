-- ===== src/Virtual/Space.antt =====
-- Address spaces, the words of the memory, and `getPhysicalAddress`.
use osext.Common.{
  ℕ, zero, suc, ◌+◌, ◌*◌, ◌/◌, ◌%◌, ◌^◌, ◌==◌, if◌then◌else◌, Option, none, some, List, [], ◌∷◌,
}

-- `tt` gives the descriptor at each index. The lists are those of the data of `cptds` and `cpts`:
-- the sections, and the addresses of their coarse page tables.
pub record Space : Type 0 where
  pub tt : ℕ → ℕ
  pub cptds : List ℕ
  pub cpts : List ℕ

-- `words` gives the 32-bit word at each physical address that is a multiple of 4. `spaces` gives the
-- address spaces by their addresses, and `address_spaces` is the list of those that exist.
pub record Machine : Type 0 where
  pub words : ℕ → ℕ
  pub kernel : Space
  pub spaces : ℕ → Space
  pub address_spaces : List ℕ

-- A coarse page table is read through the mapping of the whole RAM, so at its physical address.
unfoldable pub translate : (words tt : ℕ → ℕ) → ℕ → ℕ
translate words tt adr =
    let descriptor = tt (adr / 2 ^ 20) in
    let page_descriptor = words (descriptor / 1024 * 1024 + 4 * (adr / 4096 % 256)) in
    if descriptor % 4 == 0
    then 0
    else if descriptor % 4 == 2
    then descriptor / 2 ^ 20 * 2 ^ 20 + adr % 2 ^ 20
    else if descriptor % 4 == 1
    then (if page_descriptor % 4 == 1
        then page_descriptor / 65536 * 65536 + adr % 65536
        else if page_descriptor % 4 == 2
        then page_descriptor / 4096 * 4096 + adr % 4096
        else 0)
    else 0

unfoldable pub get_physical_address : Machine → Space → ℕ → ℕ
get_physical_address m space adr = translate m.words space.tt adr

-- The kernel reads and writes its own objects through its mapping.
unfoldable pub read_word : Machine → ℕ → ℕ
read_word m adr = m.words (get_physical_address m m.kernel adr)

unfoldable pub write_word : ℕ → ℕ → Machine → Machine
write_word adr w m = record m {
  words = λ q. if q == get_physical_address m m.kernel adr then w else m.words q;
}

-- `n` words of a `k_memset` to 0 are left, from `adr` on.
unfoldable pub clear_words : (n adr : ℕ) → Machine → Machine
clear_words zero adr m = m
clear_words (suc n) adr m = clear_words n (adr + 4) (write_word adr 0 m)

-- `n` words of a `k_memcpy` are left.
unfoldable pub copy_words : (n to from : ℕ) → Machine → Machine
copy_words zero to from m = m
copy_words (suc n) to from m = copy_words n (to + 4) (from + 4) (write_word to (read_word m from) m)

-- `searchLinkedListEntry` and `getLinkedListEntry` on the data of a list; the index is counted from
-- `i` on.
unfoldable pub search : (i d : ℕ) → List ℕ → Option ℕ
search i d [] = none
search i d (x ∷ xs) = let rest = search (i + 1) d xs in if x == d then some i else rest

unfoldable pub entry : List ℕ → ℕ → Option ℕ
entry [] i = none
entry (x ∷ xs) zero = some x
entry (x ∷ xs) (suc i) = entry xs i

unfoldable pub set_tt : (i d : ℕ) → Space → Space
set_tt i d space = record space { tt = λ j. if j == i then d else space.tt j }

unfoldable pub set_space : ℕ → Space → Machine → Machine
set_space s space m = record m { spaces = λ t. if t == s then space else m.spaces t }
