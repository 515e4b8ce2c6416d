-- ===== src/Vfs/Contains.antt =====
-- Which paths contain which.
use osext.Common.{
  ℕ, zero, suc, ◌+◌, ◌≤◌, ◌<◌, true, false, ◌==◌, ◌≡◌, refl, sym, arith, Bool-cases, inl, inr, ◌⊎◌,
  ◌↔◌, ==_iff,
}
use mathlib.Core.Path.{subst}
use osext.Libk.Strings.{strlen_from, k_strlen}
use osext.Vfs.{contains_from, vfs_path_contains}

-- From character `i` on, path2 is a part of path1 that ends with path1 or before a slash, when its
-- end is at `len`.
abbrev Part : (path1 path2 : ℕ → ℕ) → (i len end : ℕ) → Type 0
Part path1 path2 i len end =
    ((j : ℕ) → i ≤ j → j < len → path1 j ≡ path2 j)
    × (len < end → (path1 len ≡ 0) ⊎ (path1 len ≡ 47))

strlen_from-ge : (s : ℕ → ℕ) (n i : ℕ) → i ≤ strlen_from s n i
unfolding strlen_from
strlen_from-ge s zero i = omega arith
strlen_from-ge s (suc n) i = elim (Bool-cases (s i == 0)) [
  | inl e ↦ rw e (omega arith)
  | inr e ↦ rw e (omega (arith, strlen_from-ge s n (i + 1)))
]

contains_from-Part :
    (path1 path2 : ℕ → ℕ) (n i : ℕ)
    → contains_from path1 path2 n i ≡ true
    → Part path1 path2 i (strlen_from path2 n i) (i + n)
unfolding contains_from strlen_from
contains_from-Part path1 path2 zero i h =
    (λ j l u. absurd (omega (arith, l, u)), λ l. absurd (omega (arith, l)))
contains_from-Part path1 path2 (suc n) i h = elim (Bool-cases (path2 i == 0)) [
  | inl end ↦
      let z : path2 i ≡ 0 = (==_iff (path2 i) 0).0 end in
      rw end (
        λ j l u. absurd (omega (arith, l, u)),
        λ l. elim (Bool-cases (path1 i == 0)) [
          | inl q ↦ inl ((==_iff (path1 i) 0).0 q)
          | inr q ↦ inr ((==_iff (path1 i) 47).0 (rw (contains_from, q, end) at h))
        ],
      )
  | inr more ↦
      let nz : (path1 i == 0) ≡ false = elim (Bool-cases (path1 i == 0)) [
        | inl q ↦ absurd (let k = rw (contains_from, q, more) at h in let x : ⊥ = cc in x)
        | inr q ↦ q
      ] in
      let e : path1 i ≡ path2 i = elim (Bool-cases (path1 i == path2 i)) [
        | inl q ↦ (==_iff (path1 i) (path2 i)).0 q
        | inr q ↦ absurd (let k = rw (contains_from, nz, more, q) at h in let x : ⊥ = cc in x)
      ] in
      let same : (path1 i == path2 i) ≡ true = (==_iff (path1 i) (path2 i)).1 e in
      let rest =
        contains_from-Part path1 path2 n (i + 1) (rw (contains_from, nz, more, same) at h) in
      rw more (
        λ j l u. elim (Bool-cases (j == i)) [
          | inl q ↦ subst (λ k. path1 k ≡ path2 k) (sym ((==_iff j i).0 q)) e
          | inr q ↦ rest.0 j (ground (arith, l, q)) u
        ],
        λ l. rest.1 (let m : strlen_from path2 n (i + 1) < i + suc n = l in omega (arith, m)),
      )
]

no_rounds : (path1 path2 : ℕ → ℕ) (i : ℕ) → contains_from path1 path2 0 i ≡ true
unfolding contains_from
no_rounds path1 path2 i = refl

-- Where path2 ends, and where it goes on.
Part-ended :
    (path1 path2 : ℕ → ℕ) (n i : ℕ)
    → (path2 i == 0) ≡ true
    → Part path1 path2 i i (i + suc n)
    → contains_from path1 path2 (suc n) i ≡ true
unfolding contains_from
Part-ended path1 path2 n i end p = elim (p.1 (omega arith)) [
  | inl z ↦ let q : (path1 i == 0) ≡ true = (==_iff (path1 i) 0).1 z in rw (contains_from, q) end
  | inr z ↦ ground (arith, z, end)
]

Part-goes_on :
    (path1 path2 : ℕ → ℕ) (n i : ℕ)
    → (path2 i == 0) ≡ false
    → Part path1 path2 i (strlen_from path2 n (i + 1)) (i + suc n)
    → contains_from path1 path2 n (i + 1) ≡ true
    → contains_from path1 path2 (suc n) i ≡ true
unfolding contains_from
Part-goes_on path1 path2 n i more p rest =
    let e : path1 i ≡ path2 i =
      p.0 i (omega arith) (omega (arith, strlen_from-ge path2 n (i + 1))) in
    let same : (path1 i == path2 i) ≡ true = (==_iff (path1 i) (path2 i)).1 e in
    let nz : (path1 i == 0) ≡ false = ground (arith, e, more) in
    rw (contains_from, nz, more, same) rest

Part-contains_from :
    (path1 path2 : ℕ → ℕ) (n i : ℕ)
    → Part path1 path2 i (strlen_from path2 n i) (i + n)
    → contains_from path1 path2 n i ≡ true
unfolding strlen_from
Part-contains_from path1 path2 zero i h = no_rounds path1 path2 i
Part-contains_from path1 path2 (suc n) i h = elim (Bool-cases (path2 i == 0)) [
  | inl end ↦ Part-ended path1 path2 n i end (rw (strlen_from, end) at h)
  | inr more ↦
      let p = rw (strlen_from, more) at h in
      Part-goes_on path1 path2 n i more p (
        Part-contains_from path1 path2 n (i + 1)
          (λ j l u. p.0 j (omega (arith, l)) u, λ l. p.1 (omega (arith, l))))
]

-- vfs_path_contains returns true exactly when the characters of the second path up to its end, or
-- up to the maximum, are those of the first, and behind them the first path ends or has a slash,
-- unless the maximum is reached.
pub vfs_path_contains_iff :
    (path1 path2 : ℕ → ℕ) (max : ℕ)
    → let len = k_strlen path2 max in
      ((vfs_path_contains path1 path2 max ≡ true) ↔ (
        ((j : ℕ) → j < len → path1 j ≡ path2 j) × (len < max → (path1 len ≡ 0) ⊎ (path1 len ≡ 47))))
unfolding vfs_path_contains k_strlen
vfs_path_contains_iff path1 path2 max = (
  λ h.
      let p = contains_from-Part path1 path2 max 0 h in
      (λ j u. p.0 j (omega arith) u, λ l. p.1 (omega (arith, l))),
  λ p. Part-contains_from path1 path2 max 0 (λ j l u. p.0 j u, λ l. p.1 (omega (arith, l))),
)
