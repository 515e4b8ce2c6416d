-- ===== src/Vfs/Tests.antt =====
-- Paths that contain others.
use osext.Common.{ℕ, ◌<◌, true, false, ◌==◌, if◌then◌else◌, [], ◌∷◌, get_or, ◌≡◌, refl, ◌⊎◌, ◌↔◌}
use osext.Libk.Strings.{k_strlen}
use osext.Vfs.{contains_from, vfs_path_contains}
use osext.Vfs.Contains.{vfs_path_contains_iff}

-- "/dev/a" and "/dev".
abbrev device : ℕ → ℕ
device i = get_or (47 ∷ 100 ∷ 101 ∷ 118 ∷ 47 ∷ 97 ∷ []) i 0

abbrev devices : ℕ → ℕ
devices i = get_or (47 ∷ 100 ∷ 101 ∷ 118 ∷ []) i 0

contained : vfs_path_contains device devices 100 ≡ true
unfolding vfs_path_contains contains_from
contained = refl

-- The root, "/", contains no path but itself.
root_apart : vfs_path_contains device (λ i. if i == 0 then 47 else 0) 100 ≡ false
unfolding vfs_path_contains contains_from
root_apart = refl

vfs_path_contains_iff_example :
    let len = k_strlen devices 100 in
    ((vfs_path_contains device devices 100 ≡ true) ↔ (
      ((j : ℕ) → j < len → device j ≡ devices j)
      × (len < 100 → (device len ≡ 0) ⊎ (device len ≡ 47))))
vfs_path_contains_iff_example = vfs_path_contains_iff device devices 100
