-- ===== src/LinkedList/Chains.antt =====
-- Lists in memory and the sequences of their entries.
use osext.Common.{
  ℕ, zero, suc, ◌+◌, ◌<◌, true, false, ◌==◌, if◌then◌else◌, some, List, [], ◌∷◌, length, ◌≡◌, ◌≢◌,
  refl, sym, ap, ◌∙◌, arith, Bool-cases, inl, inr, ==_iff,
}
use mathlib.Core.Path.{subst}
use mathlib.Core.Option
use osext.LinkedList.{
  Entries, set_next, add_entry, follow, get_entry, search_from, search_entry, destroy_list,
}

-- From `p` on, the entries of the list are those of the sequence.
abbrev pub Chain : Entries → ℕ → List ℕ → Type 0
Chain st p [] = p ≡ 0
Chain st p (e ∷ es) = (p ≡ e) × (e ≢ 0) × Chain st (st.next e) es

abbrev pub Absent : ℕ → List ℕ → Type 0
Absent e [] = Unit
Absent e (d ∷ ds) = (d ≢ e) × Absent e ds

-- The entry at an index, 0 behind the last one.
abbrev pub nth : List ℕ → ℕ → ℕ
nth [] i = 0
nth (e ∷ es) zero = e
nth (e ∷ es) (suc i) = nth es i

-- The first entry with the data, and its index, counted from `i`.
abbrev pub first_with : Entries → ℕ → ℕ → List ℕ → ℕ × ℕ
first_with st d i [] = (0, 0)
first_with st d i (e ∷ es) =
    let rest = first_with st d (i + 1) es in if st.data_of e == d then (e, i) else rest

pub Chain-set_next :
    (st : Entries) (e q p : ℕ) (es : List ℕ)
    → Absent e es
    → Chain st p es
    → Chain (set_next e q st) p es
unfolding set_next
Chain-set_next st e q p [] a c = c
Chain-set_next st e q p (d ∷ ds) a c =
    let other : (d == e) ≡ false = ground (arith, a.0) in
    (c.0, c.1, rw other (Chain-set_next st e q (st.next d) ds a.1 c.2))

add_entry_lem : (st : Entries) (p e : ℕ) → add_entry p e st ≡ (set_next e p st, e)
unfolding add_entry
add_entry_lem st p e = elim (Bool-cases (p == 0)) [
  | inl z ↦ rw z (ap (λ x. (set_next e x st, e)) (sym ((==_iff p 0).0 z)))
  | inr z ↦ rw z refl
]

pub next-set_next : (st : Entries) (e p : ℕ) → (set_next e p st).next e ≡ p
unfolding set_next
next-set_next st e p = let z : (e == e) ≡ true = (==_iff e e).1 refl in rw z refl

-- Adding an entry that is not in the list puts it in front.
pub add_entry-Chain :
    (st : Entries) (p e : ℕ) (es : List ℕ)
    → e ≢ 0
    → Absent e es
    → Chain st p es
    → Chain (add_entry p e st).0 (add_entry p e st).1 (e ∷ es)
add_entry-Chain st p e es ne a c =
    subst (λ (r : Entries × ℕ). Chain r.0 r.1 (e ∷ es)) (sym (add_entry_lem st p e))
      (
        refl,
        ne,
        subst (λ x. Chain (set_next e p st) x es) (sym (next-set_next st e p))
            (Chain-set_next st e p p es a c),
      )

follow-nth :
    (st : Entries) (n e : ℕ) (es : List ℕ) → Chain st e (e ∷ es) → follow n e st ≡ nth (e ∷ es) n
unfolding follow
follow-nth st zero e es c = refl
follow-nth st (suc n) e [] c =
    let z : (st.next e == 0) ≡ true = (==_iff (st.next e) 0).1 c.2 in rw z refl
follow-nth st (suc n) e (d ∷ ds) c =
    let z : (st.next e == 0) ≡ false = ground (arith, c.2.0, c.2.1) in
    rw z (ap (λ x. follow n x st) c.2.0 ∙ follow-nth st n d ds (refl, c.2.1, c.2.2))

-- getLinkedListEntry gives the entry at the index, or NULL if the list is not that long.
pub get_entry-nth :
    (st : Entries) (p i : ℕ) (es : List ℕ) → Chain st p es → get_entry p i st ≡ nth es i
unfolding get_entry
get_entry-nth st p i [] c = let z : (p == 0) ≡ true = ground arith in rw z refl
get_entry-nth st p i (e ∷ es) c =
    let z : (p == 0) ≡ false = ground (arith, c.0, c.1) in
    rw z (ap (λ x. follow i x st) c.0 ∙ follow-nth st i e es (refl, c.1, c.2))

search_from-first :
    (st : Entries) (fuel p d i : ℕ) (es : List ℕ)
    → length es < fuel
    → Chain st p es
    → search_from fuel p d i st ≡ some (first_with st d i es)
unfolding search_from
search_from-first st zero p d i es h c = absurd (omega (arith, h))
search_from-first st (suc fuel) p d i [] h c = let z : (p == 0) ≡ true = ground arith in rw z refl
search_from-first st (suc fuel) p d i (e ∷ es) h c =
    ap (λ x. search_from (suc fuel) x d i st) c.0 ∙ elim (Bool-cases (st.data_of e == d)) [
      | inl y ↦ rw (z, y) refl
      | inr y ↦
          rw (z, y) (search_from-first st fuel (st.next e) d (i + 1) es (omega (arith, h)) c.2)
    ]
  where
    z : (e == 0) ≡ false
    z = ground (arith, c.1)

-- With more fuel than there are entries, searchLinkedListEntry ends and gives the first entry with
-- the data and its index, or NULL and 0 if there is none.
pub search_entry-first_with :
    (st : Entries) (fuel p d : ℕ) (es : List ℕ)
    → length es < fuel
    → Chain st p es
    → search_entry fuel p d st ≡ some (first_with st d 0 es)
unfolding search_entry
search_entry-first_with st fuel p d es h c = search_from-first st fuel p d 0 es h c

-- With more fuel than there are entries, destroyLinkedList ends and frees each entry once.
pub destroy_list_lem :
    (st : Entries) (fuel p : ℕ) (es : List ℕ)
    → length es < fuel
    → Chain st p es
    → destroy_list fuel p st ≡ some es
unfolding destroy_list
destroy_list_lem st zero p es h c = absurd (omega (arith, h))
destroy_list_lem st (suc fuel) p [] h c = let z : (p == 0) ≡ true = ground arith in rw z refl
destroy_list_lem st (suc fuel) p (e ∷ es) h c =
    let z : (e == 0) ≡ false = ground (arith, c.1) in
    ap (λ x. destroy_list (suc fuel) x st) c.0
    ∙ rw z (
        ap (Option.map (λ ds. e ∷ ds))
          (destroy_list_lem st fuel (st.next e) es (omega (arith, h)) c.2))
