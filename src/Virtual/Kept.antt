-- ===== src/Virtual/Kept.antt =====
-- The calls on address spaces keep the sections that are shared with the kernel.
use osext.Common.{
  ℕ, zero, suc, ◌+◌, ◌*◌, ◌/◌, ◌^◌, true, false, ◌==◌, ltb, if◌then◌else◌, ◌≡◌, ◌≢◌, refl, sym, ap,
  ◌∙◌, arith, Bool-cases, inl, inr, ==_iff, some, List, [], ◌∷◌, Option-cases,
}
use mathlib.Core.Path.{subst}
use mathlib.Core.Option.{some-injective}
use osext.Physical.{Table}
use osext.Virtual.Descriptors.{new_spd}
use osext.Virtual.Space.{
  Space, Machine, write_word, read_word, copy_words, search, entry, set_tt, set_space,
}
use osext.Virtual.Map.{
  section_of, table_index, Requests, add_section, user_section, add_virtual_page, add_kernel_page,
  migrate_kernel_cpt, drop_section,
}
use osext.Virtual.Create.{
  SpaceRequests, share_space, list_space, create_address_space, free_tables, remove_space,
  destroy_address_space,
}
use osext.Virtual.Shares.{
  All, All-lem, HasBut, SharesBut, NotKernel, clear_words-kernel, new_section-SharesBut,
  list_space-SharesBut,
}
use osext.Virtual.Growth.{
  Growth, Quiet, Quiet-refl, Quiet-trans, Quiet-SharesBut, without_index-All,
}
use osext.Virtual.Quiet.{entered, requested, add_kernel_page-Entered, Growth-Quiet}

-- Only descriptors of one section change, which is not the kernel's.
user_shared :
    (out : List ℕ) (m n : Machine) (x : ℕ)
    → n.kernel ≡ m.kernel
    → n.address_spaces ≡ m.address_spaces
    → ((p j : ℕ) → j ≢ x → (n.spaces p).tt j ≡ (m.spaces p).tt j)
    → All (λ c. x ≢ c / 2 ^ 20) m.kernel.cptds
    → SharesBut out m
    → SharesBut out n
user_shared out m n x k l same free h =
    subst (λ ss. All (λ s. All (HasBut out n.kernel (n.spaces s)) n.kernel.cptds) ss) (sym l)
      (subst (λ k. All (λ s. All (HasBut out k (n.spaces s)) k.cptds) m.address_spaces) (sym k)
        (All-lem m.address_spaces (λ s a. both m.kernel.cptds s free a) h))
  where
    both :
        (cs : List ℕ) (s : ℕ)
        → All (λ c. x ≢ c / 2 ^ 20) cs
        → All (HasBut out m.kernel (m.spaces s)) cs
        → All (HasBut out m.kernel (n.spaces s)) cs
    both [] s f a = tt
    both (c ∷ cs) s f a = (λ o. same s (c / 2 ^ 20) (λ e. f.0 (sym e)) ∙ a.0 o, both cs s f.1 a.1)

user_section-tt :
    (s section cpt : ℕ) (m : Machine) (p j : ℕ)
    → j ≢ section / 2 ^ 20
    → ((user_section s section cpt m).spaces p).tt j ≡ (m.spaces p).tt j
unfolding user_section set_space set_tt
user_section-tt s section cpt m p j ne =
    let n : (j == section / 2 ^ 20) ≡ false = ground (arith, ne) in
    elim (Bool-cases (p == s)) [
      | inl e ↦
          let own : (s == s) ≡ true = (==_iff s s).1 refl in
          rw (e, own, n) (ap (λ q. (m.spaces q).tt j) (sym ((==_iff p s).0 e)))
      | inr e ↦ rw e (ap (λ (f : ℕ → Space). (f p).tt j) (clear_words-kernel 256 cpt m).1)
    ]

-- The result has the kernel's sections as they are behind the requests.
user_section-SharesBut :
    (out : List ℕ) (s adr cpt w to : ℕ) (m : Machine)
    → NotKernel (write_word to w (user_section s (section_of adr) cpt m)) adr
    → SharesBut out m
    → SharesBut out (write_word to w (user_section s (section_of adr) cpt m))
unfolding user_section set_space section_of write_word
user_section-SharesBut out s adr cpt w to m free h =
    let c = clear_words-kernel 256 cpt m in
    let x : section_of adr / 2 ^ 20 ≡ adr / 2 ^ 20 = omega arith in
    user_shared out m (write_word to w (user_section s (section_of adr) cpt m)) (adr / 2 ^ 20) c.0
      c.2 (λ p j ne. user_section-tt s (section_of adr) cpt m p j (λ e. ne (e ∙ x)))
      (subst (λ (k : Space). All (λ d. adr / 2 ^ 20 ≢ d / 2 ^ 20) k.cptds) c.0 free) h

add_section-Quiet :
    (out : List ℕ) (s section : ℕ) (m : Machine) → Quiet out m (add_section s section m)
unfolding add_section set_space
add_section-Quiet out s section m =
    Quiet-refl out m (add_section s section m) refl
      (λ p j. elim (Bool-cases (p == s)) [
        | inl e ↦ rw e (ap (λ q. (m.spaces q).tt j) (sym ((==_iff p s).0 e)))
        | inr e ↦ rw e refl
      ])
      refl

pub add_virtual_page-SharesBut :
    (out : List ℕ) (q : Requests) (s page adr : ℕ) (m m' : Machine)
    → ((n n' : Machine) → q.list_entry n ≡ some n' → Growth out n n')
    → ((n n' : Machine) (cpt : ℕ) → q.table n ≡ some (cpt, n') → Growth out n n')
    → NotKernel m' adr
    → add_virtual_page q s page adr m ≡ some m'
    → SharesBut out m
    → SharesBut out m'
unfolding write_word add_virtual_page
add_virtual_page-SharesBut out q s page adr m m' first second free e h =
    elim (Option-cases (search 0 (section_of adr) (m.spaces s).cptds)) [
      | inl new ↦ elim (Option-cases (q.list_entry m)) [
        | inl p ↦ absurd (let f = rw (add_virtual_page, new, p) at e in let x : ⊥ = cc in x)
        | inr m1 ↦ elim (Option-cases (q.table (add_section s (section_of adr) m1.0))) [
          | inl p ↦ absurd (let f = rw (add_virtual_page, new, m1.1, p) at e in let x : ⊥ = cc in x)
          | inr r ↦
              let w = some-injective _ _ (rw (add_virtual_page, new, m1.1, r.1) at e) in
              let grown =
                Quiet-trans out m (add_section s (section_of adr) m1.0) r.0.1
                  (Quiet-trans out m m1.0 _ (Growth-Quiet (first m m1.0 m1.1))
                    (add_section-Quiet out s (section_of adr) m1.0))
                  (Growth-Quiet (second (add_section s (section_of adr) m1.0) r.0.1 r.0.0 r.1)) in
              subst (SharesBut out) w (
                user_section-SharesBut out s adr r.0.0 (new_spd 1 1 255 page)
                  (r.0.0 + 4 * table_index adr) r.0.1 (subst (λ n. NotKernel n adr) (sym w) free)
                  (Quiet-SharesBut out m r.0.1 grown h))
        ]
      ]
      | inr old ↦ elim (Option-cases (entry (m.spaces s).cpts old.0)) [
        | inl missing ↦
            absurd (let f = rw (add_virtual_page, old.1, missing) at e in let x : ⊥ = cc in x)
        | inr table ↦
            subst (SharesBut out) (some-injective _ _ (rw (add_virtual_page, old.1, table.1) at e))
              h
      ]
    ]

pub add_kernel_page-SharesBut :
    (out : List ℕ) (c b : ℕ) (q : Requests) (page adr : ℕ) (m m' : Machine)
    → ((n n' : Machine) → q.list_entry n ≡ some n' → Growth out n n')
    → ((n n' : Machine) (cpt : ℕ) → q.table n ≡ some (cpt, n') → Growth out n n')
    → add_kernel_page c b q page adr m ≡ some m'
    → SharesBut out m
    → SharesBut out m'
unfolding write_word
add_kernel_page-SharesBut out c b q page adr m m' first second e h =
    elim (add_kernel_page-Entered c b q page adr m m' e) [
      | entered table w ↦ subst (SharesBut out) w h
      | requested m1 m2 cpt none' asked gave w ↦
          let grown =
            Quiet-trans out m m1 m2 (Growth-Quiet (first m m1 asked))
              (Growth-Quiet (second m1 m2 cpt gave)) in
          subst (SharesBut out) w
            (new_section-SharesBut out c b page adr cpt m2 (Quiet-SharesBut out m m2 grown h))
    ]

pub create_address_space-SharesBut :
    (out : List ℕ) (q : SpaceRequests) (s : ℕ) (m m' : Machine)
    → ((n n' : Machine) (t : ℕ) → q.space n ≡ some (t, n') → Growth out n n')
    → ((n n' : Machine) → q.list_entry n ≡ some n' → Growth out n n')
    → create_address_space q m ≡ some (s, m')
    → SharesBut out m
    → SharesBut out m'
unfolding create_address_space list_space
create_address_space-SharesBut out q s m m' first second e h = elim (Option-cases (q.space m)) [
  | inl p ↦ absurd (let f = rw (create_address_space, p) at e in let x : ⊥ = cc in x)
  | inr r ↦ elim (Option-cases (q.list_entry (share_space r.0.0 r.0.1))) [
    | inl p ↦ absurd (let f = rw (create_address_space, r.1, p) at e in let x : ⊥ = cc in x)
    | inr m2 ↦
        let w = some-injective _ _ (rw (create_address_space, r.1, m2.1) at e) in
        let shared = share_space r.0.0 r.0.1 in
        let before = Quiet-SharesBut out m r.0.1 (Growth-Quiet (first m r.0.1 r.0.0 r.1)) h in
        let g = Growth-Quiet (second shared m2.0 m2.1) in
        let listed : Quiet out (list_space r.0.0 shared) (list_space r.0.0 m2.0) = record {
          list = ap (λ ss. r.0.0 ∷ ss) g.list;
          kernel = g.kernel;
          spaces = g.spaces;
          sections = g.sections;
        } in
        subst (SharesBut out) (ap (λ (p : ℕ × Machine). p.1) w) (
          Quiet-SharesBut out (list_space r.0.0 shared) (list_space r.0.0 m2.0) listed
            (list_space-SharesBut out r.0.0 r.0.1 before))
  ]
]

remove_space-All : (P : ℕ → Type 0) (s : ℕ) (xs : List ℕ) → All P xs → All P (remove_space s xs)
unfolding remove_space
remove_space-All P s xs h = elim (Option-cases (search 0 s xs)) [
  | inl e ↦ rw (remove_space, e) h
  | inr i ↦ rw (remove_space, i.1) (without_index-All P i.0 xs h)
]

pub destroy_address_space-SharesBut :
    (out : List ℕ) (s : ℕ) (m m' : Machine) (t t' : Table)
    → destroy_address_space s m t ≡ some (m', t')
    → SharesBut out m
    → SharesBut out m'
unfolding destroy_address_space
destroy_address_space-SharesBut out s m m' t t' e h =
    elim (Option-cases (free_tables (m.spaces s).cptds (m.spaces s).cpts m t)) [
      | inl missing ↦
          absurd (let f = rw (destroy_address_space, missing) at e in let x : ⊥ = cc in x)
      | inr freed ↦
          let f = some-injective _ _ (rw (destroy_address_space, freed.1) at e) in
          subst (SharesBut out) (ap (λ (p : Machine × Table). p.0) f) (
            remove_space-All (λ p. All (HasBut out m.kernel (m.spaces p)) m.kernel.cptds) s
              m.address_spaces h)
    ]

pub no_spaces : (out : List ℕ) (m : Machine) → m.address_spaces ≡ [] → SharesBut out m
no_spaces out m e =
    subst (λ ss. All (λ s. All (HasBut out m.kernel (m.spaces s)) m.kernel.cptds) ss) (sym e) tt

copy_words-address_spaces :
    (n to from : ℕ) (m : Machine) → (copy_words n to from m).address_spaces ≡ m.address_spaces
unfolding copy_words write_word
copy_words-address_spaces zero to from m = refl
copy_words-address_spaces (suc n) to from m =
    copy_words-address_spaces n (to + 4) (from + 4) (write_word to (read_word m from) m)

pub migrate-address_spaces :
    (section migrate_cpt pages cpt : ℕ) (m : Machine)
    → (migrate_kernel_cpt section migrate_cpt pages cpt m).address_spaces ≡ m.address_spaces
unfolding migrate_kernel_cpt
migrate-address_spaces section migrate_cpt pages cpt m =
    copy_words-address_spaces (if ltb 256 pages then 256 else pages) cpt migrate_cpt _
    ∙ (clear_words-kernel 256 cpt
        (record m { kernel = drop_section (section_of section) m.kernel })).2
