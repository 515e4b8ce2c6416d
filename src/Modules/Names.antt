-- ===== src/Modules/Names.antt =====
-- The names of the installed modules.
use osext.Common.{
  ℕ, ◌+◌, ◌-◌, ◌<◌, true, false, ◌&&◌, ltb, leb, List, [], ◌∷◌, ◌≡◌, refl, ◌∙◌, sym, arith,
  Bool-cases, inl, inr,
}
use mathlib.Core.Path.{subst}
use osext.Physical.{Table}
use osext.Libk.Strings.{k_strlen, k_streq}
use osext.Libk.Compare.{k_strlen_lem, k_streq_iff}
use osext.Modules.Install.{Module, copy_in, name_copy, is_installed, uninstall}

-- The two strings are equal for `k_streq` with maximum 100.
abbrev pub Same : (s t : ℕ → ℕ) → Type 0
Same s t = k_streq s t 100 ≡ true

-- Strings that agree up to the end of one have the same length.
strlen-agree :
    (s t : ℕ → ℕ)
    → ((i : ℕ) → i < k_strlen s 100 → t i ≡ s i)
    → (k_strlen s 100 < 100 → t (k_strlen s 100) ≡ 0)
    → k_strlen t 100 ≡ k_strlen s 100
strlen-agree s t same end =
    let a = k_strlen_lem s 100 in
    let b = k_strlen_lem t 100 in
    let m = k_strlen s 100 in
    let n = k_strlen t 100 in
    elim (Bool-cases (ltb n m)) [
      | inl e ↦
          let l : n < m = ground (arith, e) in
          absurd (a.1 n l (sym (same n l) ∙ b.2 (omega (arith, l, a.0))))
      | inr e ↦ elim (Bool-cases (ltb m n)) [
        | inl f ↦
            let l : m < n = ground (arith, f) in absurd (b.1 m l (end (omega (arith, l, b.0))))
        | inr f ↦ ground (arith, e, f)
      ]
    ]

pub name_copy-Same : (name : ℕ → ℕ) → Same name (name_copy name)
unfolding name_copy copy_in
name_copy-Same name =
    let agree : (i : ℕ) → i < k_strlen name 100 → name_copy name i ≡ name i = λ i l.
      let c : (leb 0 i && ltb i (0 + k_strlen name 100)) ≡ true = ground (arith, l) in
      let z : i - 0 ≡ i = omega arith in rw (c, z) refl in
    (k_streq_iff name (name_copy name) 100).1
      (sym (strlen-agree name (name_copy name) agree (λ l. ground arith)), λ i l. sym (agree i l))

pub Same-sym : (s t : ℕ → ℕ) → Same s t → Same t s
Same-sym s t e =
    let p = (k_streq_iff s t 100).0 e in
    (k_streq_iff t s 100).1 (sym p.0, λ i l. sym (p.1 i (subst (λ n. i < n) (sym p.0) l)))

pub Same-trans : (s t u : ℕ → ℕ) → Same s t → Same t u → Same s u
Same-trans s t u e f =
    let p = (k_streq_iff s t 100).0 e in
    let q = (k_streq_iff t u 100).0 f in
    (k_streq_iff s u 100).1 (p.0 ∙ q.0, λ i l. p.1 i l ∙ q.1 i (subst (λ n. i < n) p.0 l))

-- Equal names are installed or not alike.
pub not_installed-Same :
    (s t : ℕ → ℕ) (ms : List Module)
    → Same s t
    → is_installed s ms ≡ false
    → is_installed t ms ≡ false
unfolding is_installed
not_installed-Same s t [] e h = refl
not_installed-Same s t (m ∷ ms) e h = elim (Bool-cases (k_streq t m.name 100)) [
  | inl f ↦ absurd (let g = rw (Same-trans s t m.name e f) at h in let x : ⊥ = cc in x)
  | inr f ↦ elim (Bool-cases (k_streq s m.name 100)) [
    | inl g ↦ absurd (let k = rw g at h in let x : ⊥ = cc in x)
    | inr g ↦ rw f (not_installed-Same s t ms e (rw g at h))
  ]
]

-- No two of the modules have equal names.
abbrev pub Distinct : List Module → Type 0
Distinct [] = Unit
Distinct (m ∷ ms) = (is_installed m.name ms ≡ false) × Distinct ms

uninstall-not_installed :
    (name s : ℕ → ℕ) (ms : List Module) (t : Table)
    → is_installed s ms ≡ false
    → is_installed s (uninstall name ms t).0 ≡ false
unfolding uninstall is_installed
uninstall-not_installed name s [] t h = refl
uninstall-not_installed name s (m ∷ ms) t h = elim (Bool-cases (k_streq s m.name 100)) [
  | inl g ↦ absurd (let k = rw g at h in let x : ⊥ = cc in x)
  | inr g ↦
      let rest = rw g at h in
      elim (Bool-cases (k_streq name m.name 100)) [
        | inl e ↦ rw e rest
        | inr e ↦ rw (e, g) (uninstall-not_installed name s ms t rest)
      ]
]

pub uninstall-Distinct :
    (name : ℕ → ℕ) (ms : List Module) (t : Table)
    → Distinct ms
    → Distinct (uninstall name ms t).0 × (is_installed name (uninstall name ms t).0 ≡ false)
unfolding uninstall is_installed
uninstall-Distinct name [] t d = (tt, refl)
uninstall-Distinct name (m ∷ ms) t d = elim (Bool-cases (k_streq name m.name 100)) [
  | inl e ↦ rw e (d.1, not_installed-Same m.name name ms (Same-sym name m.name e) d.0)
  | inr e ↦
      let rest = uninstall-Distinct name ms t d.1 in
      rw e ((uninstall-not_installed name m.name ms t d.0, rest.0), rw e rest.1)
]
