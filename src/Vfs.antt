-- ===== src/Vfs.antt =====
-- The paths of kernel/vfs/vfs.c.
pub mod Contains
mod Tests
use osext.Common.{
  ℕ, zero, suc, ◌+◌, Bool, true, false, ◌==◌, ◌&&◌, ltb, if◌then◌else◌, Option, none, some,
}
use osext.Libk.Strings.{k_strlen}

-- `n` rounds of the loop are left, from character `i` on.
unfoldable pub contains_from : (path1 path2 : ℕ → ℕ) → (n i : ℕ) → Bool
contains_from path1 path2 zero i = true
contains_from path1 path2 (suc n) i =
    let rest = contains_from path1 path2 n (i + 1) in
    if path1 i == 0
    then path2 i == 0
    else if path2 i == 0
    then path1 i == 47
    else if path1 i == path2 i
    then rest
    else false

unfoldable pub vfs_path_contains : (path1 path2 : ℕ → ℕ) → (max : ℕ) → Bool
vfs_path_contains path1 path2 max = contains_from path1 path2 max 0

-- A memory that `kmalloc` gives has the bytes `memory`; `none` is `NULL`.
unfoldable pub vfs_resolve : (memory : Option (ℕ → ℕ)) → (path : ℕ → ℕ) → Option (ℕ → ℕ)
vfs_resolve none path = none
vfs_resolve (some memory) path =
    some (λ i. if ltb i (k_strlen path 100 + 1) then path i else memory i)
