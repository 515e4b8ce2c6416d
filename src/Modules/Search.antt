-- ===== src/Modules/Search.antt =====
-- The search for exported functions.
use osext.Common.{
  ℕ, zero, suc, ◌+◌, Bool, true, false, ◌&&◌, if◌then◌else◌, some, List, [], ◌∷◌, ◌≡◌, refl, ap,
  ◌∙◌, sym, arith, Bool-cases, inl, inr, ◌↔◌, get_elem?,
}
use mathlib.Core.Path.{subst}
use mathlib.Core.Option.{some-injective}
use osext.Libk.Strings.{k_strlen, k_streq, strlen_from, streq_from}
use osext.Modules.Exports.{string, modules_export_names, search_names, module_search_function}
use osext.Modules.Names.{Same, Same-sym, Same-trans}

-- The name is none of the list.
abbrev is_new : List ℕ → List (List ℕ) → Bool
is_new n [] = true
is_new n (m ∷ ms) =
    let rest = is_new n ms in if k_streq (string n) (string m) 100 then false else rest

abbrev all_new : List (List ℕ) → Bool
all_new [] = true
all_new (n ∷ ns) = is_new n ns && all_new ns

all_new_exports : all_new modules_export_names ≡ true
unfolding k_streq k_strlen strlen_from streq_from string
all_new_exports = refl

not_new :
    (name : ℕ → ℕ) (m n : List ℕ) (ns : List (List ℕ)) (i : ℕ)
    → is_new m ns ≡ true
    → get_elem? ns i ≡ some n
    → Same name (string m)
    → Same name (string n)
    → ⊥
not_new name m n [] i h g s t = cc
not_new name m n (x ∷ xs) zero h g s t =
    let here : x ≡ n = some-injective _ _ g in
    let same : Same (string m) (string x) =
      Same-trans (string m) name (string x) (Same-sym name (string m) s)
        (subst (λ y. Same name (string y)) (sym here) t) in
    let k = rw same at h in cc
not_new name m n (x ∷ xs) (suc i) h g s t = elim (Bool-cases (k_streq (string m) (string x) 100)) [
  | inl e ↦ let k = rw e at h in cc
  | inr e ↦ not_new name m n xs i (rw e at h) g s t
]

-- The search finds the index of a name, when the names are new.
found_at :
    (name : ℕ → ℕ) (n : List ℕ) (ns : List (List ℕ)) (k i : ℕ)
    → all_new ns ≡ true
    → get_elem? ns i ≡ some n
    → Same name (string n)
    → search_names name k ns ≡ some (k + i)
unfolding search_names
found_at name n [] k i h g t = absurd (let x : ⊥ = cc in x)
found_at name n (x ∷ xs) k zero h g t =
    let here : x ≡ n = some-injective _ _ g in
    let same : Same name (string x) = subst (λ y. Same name (string y)) (sym here) t in
    rw same (ap some (omega arith))
found_at name n (x ∷ xs) k (suc i) h g t =
    let first : is_new x xs ≡ true = ground (arith, h) in
    let rest : all_new xs ≡ true = ground (arith, h) in
    elim (Bool-cases (k_streq name (string x) 100)) [
      | inl e ↦ absurd (not_new name x n xs i first g e t)
      | inr e ↦ rw e (found_at name n xs (k + 1) i rest g t ∙ ap some (omega arith))
    ]

-- What the search finds has the name.
finds_name :
    (name : ℕ → ℕ) (ns : List (List ℕ)) (k j : ℕ)
    → search_names name k ns ≡ some j
    → (i : ℕ) × (j ≡ k + i) × (n : List ℕ) × (get_elem? ns i ≡ some n) × Same name (string n)
unfolding search_names
finds_name name [] k j h = absurd (let x : ⊥ = cc in x)
finds_name name (x ∷ xs) k j h = elim (Bool-cases (k_streq name (string x) 100)) [
  | inl e ↦ (zero, sym (some-injective _ _ (rw (search_names, e) at h)) ∙ omega arith, x, refl, e)
  | inr e ↦
      let r = finds_name name xs (k + 1) j (rw (search_names, e) at h) in
      (suc r.0, r.1 ∙ omega arith, r.2, r.3, r.4)
]

-- A module that searches for a name gets the function at index i exactly when the name is that of
-- index i.
pub module_search_function_iff :
    (name : ℕ → ℕ) (i : ℕ)
    → ((module_search_function name ≡ some i)
        ↔ ((n : List ℕ) × (get_elem? modules_export_names i ≡ some n) × Same name (string n)))
unfolding module_search_function
module_search_function_iff name i = (
  λ h.
      let r = finds_name name modules_export_names 0 i h in
      let at : r.0 ≡ i = omega (arith, r.1) in
      (r.2, subst (λ j. get_elem? modules_export_names j ≡ some r.2) at r.3, r.4),
  λ p. found_at name p.0 modules_export_names 0 i all_new_exports p.1 p.2 ∙ ap some (omega arith),
)
