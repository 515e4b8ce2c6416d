-- ===== src/Virtual/Quiet.antt =====
-- Growth leaves everything outside of its sections as it is.
use osext.Common.{
  ℕ, zero, suc, ◌+◌, ◌*◌, ◌/◌, ◌^◌, true, false, ◌==◌, ltb, if◌then◌else◌, ◌≡◌, refl, sym, ap, ◌∙◌,
  arith, Bool-cases, inl, inr, ==_iff, none, some, List, ◌∷◌, Option-cases,
}
use mathlib.Core.Path.{subst}
use mathlib.Core.Option.{some-injective}
use osext.Virtual.Descriptors.{new_spd}
use osext.Virtual.Space.{
  Space, Machine, write_word, read_word, clear_words, copy_words, search, entry, set_tt,
}
use osext.Virtual.Map.{
  section_of, table_index, add_lists, Requests, kernel_section, copy_descriptor, add_kernel_page,
  migrate_kernel_cpt, drop_section,
}
use osext.Virtual.Shares.{
  All, All-lem, All-self, has, clear_words-kernel, copy_descriptor-tt, copy_descriptor-kernel,
  copy_descriptor-list, kernel_section_lem, kernel_section-tt,
}
use osext.Virtual.Growth.{
  Growth, none_needed, followed, written, unlisted, migrated, kernel_page, Quiet, sections_same,
  Quiet-refl, Quiet-trans, without_index-All,
}

copy_words-kernel :
    (n to from : ℕ) (m : Machine)
    → ((copy_words n to from m).kernel ≡ m.kernel)
      × ((copy_words n to from m).spaces ≡ m.spaces)
      × ((copy_words n to from m).address_spaces ≡ m.address_spaces)
unfolding copy_words write_word
copy_words-kernel zero to from m = (refl, refl, refl)
copy_words-kernel (suc n) to from m =
    copy_words-kernel n (to + 4) (from + 4) (write_word to (read_word m from) m)

-- An index outside of `out` is none of it.
outside : (out : List ℕ) (i j : ℕ) → has i out ≡ true → has j out ≡ false → (j == i) ≡ false
outside out i j a b = elim (Bool-cases (j == i)) [
  | inl e ↦ absurd (let q = ap (λ x. has x out) ((==_iff j i).0 e) in let f : ⊥ = cc in f)
  | inr e ↦ e
]

drop_section-kernel :
    (section : ℕ) (k : Space)
    → (drop_section section k).tt ≡ k.tt
      × All (λ c. has c k.cptds ≡ true) (drop_section section k).cptds
unfolding drop_section
drop_section-kernel section k = elim (Option-cases (search 0 section k.cptds)) [
  | inl e ↦ rw (drop_section, e) (refl, All-self k.cptds)
  | inr i ↦
      rw (drop_section, i.1)
        (refl, without_index-All (λ c. has c k.cptds ≡ true) i.0 k.cptds (All-self k.cptds))
]

-- The machine of `migrate_kernel_cpt` before the descriptor is written.
abbrev copied : (section migrate_cpt pages cpt : ℕ) → Machine → Machine
copied section migrate_cpt pages cpt m =
    let n = if ltb 256 pages then 256 else pages in
    let m' =
      clear_words 256 cpt (record m { kernel = drop_section (section_of section) m.kernel }) in
    copy_words n cpt migrate_cpt
      (record m' { kernel = add_lists (section_of section) cpt m'.kernel })

copied_lem :
    (section migrate_cpt pages cpt : ℕ) (m : Machine)
    → let n = copied section migrate_cpt pages cpt m in
      (n.kernel.tt ≡ m.kernel.tt)
      × (n.kernel.cptds ≡ section_of section ∷ (drop_section (section_of section) m.kernel).cptds)
      × (n.spaces ≡ m.spaces)
      × (n.address_spaces ≡ m.address_spaces)
unfolding add_lists
copied_lem section migrate_cpt pages cpt m =
    let n = if ltb 256 pages then 256 else pages in
    let dropped : Machine = record m { kernel = drop_section (section_of section) m.kernel } in
    let c = clear_words-kernel 256 cpt dropped in
    let m' = clear_words 256 cpt dropped in
    let listed : Machine = record m' { kernel = add_lists (section_of section) cpt m'.kernel } in
    let w = copy_words-kernel n cpt migrate_cpt listed in
    (
      ap (λ (k : Space). k.tt) w.0
          ∙ ap (λ (k : Space). k.tt) c.0
          ∙ (drop_section-kernel (section_of section) m.kernel).0,
      ap (λ (k : Space). k.cptds) w.0 ∙ ap (λ (k : Space). section_of section ∷ k.cptds) c.0,
      w.1 ∙ c.1,
      w.2 ∙ c.2,
    )

section-index : (a : ℕ) → section_of a / 2 ^ 20 ≡ a / 2 ^ 20
unfolding section_of
section-index a = omega arith

migrate-Quiet :
    (out : List ℕ) (section migrate_cpt pages cpt : ℕ) (m : Machine)
    → has (section / 2 ^ 20) out ≡ true
    → Quiet out m (migrate_kernel_cpt section migrate_cpt pages cpt m)
unfolding migrate_kernel_cpt set_tt
migrate-Quiet out section migrate_cpt pages cpt m e =
    let l = copied_lem section migrate_cpt pages cpt m in
    let k = (drop_section-kernel (section_of section) m.kernel).1 in
    let P = λ (c : ℕ). has (c / 2 ^ 20) out ≡ false → has c m.kernel.cptds ≡ true in
    let new : P (section_of section) =
      λ o. absurd (let same = ap (λ x. has x out) (section-index section) in let f : ⊥ = cc in f) in
    record {
      list = l.3;
      kernel = λ j o. rw (outside out (section / 2 ^ 20) j e o) (ap (λ t. t j) l.0);
      spaces = λ s j o. ap (λ (f : ℕ → Space). (f s).tt j) l.2;
      sections =
          subst (All P) (sym l.1)
            (new, All-lem (drop_section (section_of section) m.kernel).cptds (λ c h _. h) k);
    }

-- A page in a new section of `out`, behind the requests.
new_section-Quiet :
    (out : List ℕ) (c b page adr cpt : ℕ) (m : Machine)
    → has (section_of adr / 2 ^ 20) out ≡ true
    → Quiet out m (
        copy_descriptor (section_of adr / 2 ^ 20) m.address_spaces (
          write_word
            (cpt + 4 * table_index adr)
            (new_spd c b 85 page)
            (kernel_section (section_of adr) cpt m)))
unfolding write_word
new_section-Quiet out c b page adr cpt m e =
    let i = section_of adr / 2 ^ 20 in
    let l = kernel_section_lem m (section_of adr) cpt in
    let k =
      write_word (cpt + 4 * table_index adr) (new_spd c b 85 page)
        (kernel_section (section_of adr) cpt m) in
    let P = λ (c : ℕ). has (c / 2 ^ 20) out ≡ false → has c m.kernel.cptds ≡ true in
    let new : P (section_of adr) = λ o. absurd (let f : ⊥ = cc in f) in
    record {
      list = copy_descriptor-list i m.address_spaces k ∙ l.2;
      kernel = λ j o.
          ap (λ (k : Space). k.tt j) (copy_descriptor-kernel i m.address_spaces k)
          ∙ kernel_section-tt m (section_of adr) cpt j
          ∙ rw (outside out i j e o) refl;
      spaces = λ s j o.
          copy_descriptor-tt i m.address_spaces k s j
          ∙ rw (outside out i j e o) (ground (arith, ap (λ (f : ℕ → Space). (f s).tt j) l.1));
      sections =
          subst (All P)
            (sym (ap (λ (k : Space). k.cptds) (copy_descriptor-kernel i m.address_spaces k) ∙ l.0))
            (new, All-lem m.kernel.cptds (λ c h _. h) (All-self m.kernel.cptds));
    }

-- What `add_kernel_page` does: it enters a page in a section that is there, or asks for a new one.
pub data Entered (c b : ℕ) (q : Requests) (page adr : ℕ) (m m' : Machine) : Type 0 where
  entered :
      (table : ℕ)
      → write_word (table + 4 * table_index adr) (new_spd c b 85 page) m ≡ m'
      → Entered c b q page adr m m'
  requested :
      (m1 m2 : Machine) (cpt : ℕ)
      → search 0 (section_of adr) m.kernel.cptds ≡ none
      → q.list_entry m ≡ some m1
      → q.table m1 ≡ some (cpt, m2)
      → copy_descriptor (section_of adr / 2 ^ 20) m2.address_spaces (
          write_word
            (cpt + 4 * table_index adr)
            (new_spd c b 85 page)
            (kernel_section (section_of adr) cpt m2))
        ≡ m'
      → Entered c b q page adr m m'

pub add_kernel_page-Entered :
    (c b : ℕ) (q : Requests) (page adr : ℕ) (m m' : Machine)
    → add_kernel_page c b q page adr m ≡ some m'
    → Entered c b q page adr m m'
unfolding add_kernel_page
add_kernel_page-Entered c b q page adr m m' e =
    elim (Option-cases (search 0 (section_of adr) m.kernel.cptds)) [
      | inl new ↦ elim (Option-cases (q.list_entry m)) [
        | inl p ↦ absurd (let f = rw (add_kernel_page, new, p) at e in let x : ⊥ = cc in x)
        | inr m1 ↦ elim (Option-cases (q.table m1.0)) [
          | inl p ↦ absurd (let f = rw (add_kernel_page, new, m1.1, p) at e in let x : ⊥ = cc in x)
          | inr r ↦
              requested m1.0 r.0.1 r.0.0 new m1.1 r.1
                (some-injective _ _ (rw (add_kernel_page, new, m1.1, r.1) at e))
        ]
      ]
      | inr old ↦ elim (Option-cases (entry m.kernel.cpts old.0)) [
        | inl missing ↦
            absurd (let f = rw (add_kernel_page, old.1, missing) at e in let x : ⊥ = cc in x)
        | inr table ↦
            entered table.0 (some-injective _ _ (rw (add_kernel_page, old.1, table.1) at e))
      ]
    ]

write_word-Quiet : (out : List ℕ) (adr w : ℕ) (m : Machine) → Quiet out m (write_word adr w m)
unfolding write_word
write_word-Quiet out adr w m = Quiet-refl out m (write_word adr w m) refl (λ _ _. refl) refl

pub Growth-Quiet : {out : List ℕ} {m m' : Machine} → Growth out m m' → Quiet out m m'
unfolding set_tt
Growth-Quiet {out} {m} none_needed = Quiet-refl out m m refl (λ _ _. refl) refl
Growth-Quiet {out} {m} {m'} (followed {m' = n} g g') =
    Quiet-trans out m n m' (Growth-Quiet g) (Growth-Quiet g')
Growth-Quiet {out} {m} (written adr w) = write_word-Quiet out adr w m
Growth-Quiet {out} {m} (unlisted i d e) = record {
  list = refl;
  kernel = λ j o. rw (outside out i j e o) refl;
  spaces = λ s j _. refl;
  sections = sections_same out m (record m { kernel = set_tt i d m.kernel }) refl;
}
Growth-Quiet {out} {m} (migrated section migrate_cpt pages cpt e) =
    migrate-Quiet out section migrate_cpt pages cpt m e
Growth-Quiet {out} {m} (kernel_page c b page adr q m' first second new e) =
    elim (add_kernel_page-Entered c b q page adr m m' e) [
      | entered table w ↦
          subst (Quiet out m) w
            (write_word-Quiet out (table + 4 * table_index adr) (new_spd c b 85 page) m)
      | requested m1 m2 cpt none' asked gave w ↦ subst (Quiet out m) w (
          Quiet-trans out m m2 _
            (Quiet-trans out m m1 m2 (Growth-Quiet (first m m1 asked))
              (Growth-Quiet (second m1 m2 cpt gave)))
            (new_section-Quiet out c b page adr cpt m2 (new none')))
    ]
