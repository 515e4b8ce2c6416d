-- ===== src/Virtual/Tests.antt =====
-- Address spaces on a concrete machine.
use osext.Common.{
  ℕ, ◌+◌, ◌/◌, ◌%◌, ◌^◌, ◌<◌, ◌==◌, if◌then◌else◌, ◌≡◌, ◌≢◌, refl, ◌∙◌, arith, Bool-cases, inl, inr,
  ==_iff, none, some, List, [], ◌∷◌, ap, ◌*◌,
}
use mathlib.Core.Path.{subst}
use mathlib.Core.Option.{some-injective}
use osext.Virtual.Space.{
  Space, Machine, translate, get_physical_address, read_word, search, set_space,
}
use osext.Virtual.Map.{
  section_of, Requests, add_section, add_virtual_page, add_kernel_page, migrate_kernel_cpt,
}
use osext.Virtual.Create.{SpaceRequests, share_space, list_space, create_address_space}
use osext.Virtual.Translate.{TableAt}
use osext.Virtual.Added.{Place, fresh, Added, add_virtual_page-Added}
use osext.Virtual.Shares.{SharesBut}
use osext.Virtual.Growth.{Growth, none_needed, migrated}
use osext.Virtual.Steps.{start, next, kernel_page, created, objects, Reach-SharesBut}
use osext.Virtual.Created.{Created, create_address_space-Created}

abbrev no_space : Space
no_space = record { tt = λ _. 0; cptds = []; cpts = [] }

-- The kernel maps the first megabyte of the RAM, and no more. One word behind the table at
-- 0x10001000 is the descriptor of a small page.
abbrev ram : Machine
ram = record {
  words = λ q. if q == 0x10001400 then 0x10005002 else 0;
  kernel = record no_space { tt = λ j. if j == 3776 then 0x1000041e else 0 };
  spaces = λ _. no_space;
  address_spaces = [];
}

ram-TableAt : TableAt ram 0xec002000 0x10002000
unfolding get_physical_address translate
ram-TableAt = record {
  cpt_aligned = refl;
  base_aligned = refl;
  base_pos = λ e. omega (arith, e);
  seen = refl;
  apart = λ j c. elim (Bool-cases (j == 3776)) [
    | inl e ↦ absurd (let f = rw e at c in omega (arith, f))
    | inr e ↦ absurd (let f = rw e at c in omega (arith, f))
  ];
}

-- The list entries are there, and the table is at 0xec002000.
abbrev enough : Requests
enough = record { list_entry = λ m. some m; table = λ m. some (0xec002000, m) }

ram-Place : Place enough ram 7 0x8000 (add_section 7 0 ram)
unfolding search section_of add_section set_space get_physical_address translate
ram-Place =
    fresh ram (add_section 7 0 ram) 0xec002000 0x10002000 refl refl refl refl
      (record {
        cpt_aligned = ram-TableAt.cpt_aligned;
        base_aligned = ram-TableAt.base_aligned;
        base_pos = ram-TableAt.base_pos;
        seen = refl;
        apart = ram-TableAt.apart;
      })
      (λ j c. absurd (omega (arith, c)))

add_virtual_page-Added_example :
    (m : Machine) × (add_virtual_page enough 7 0x10003000 0x8000 ram ≡ some m)
    × Added (add_section 7 0 ram) m 7 0x10003000 0x8000
add_virtual_page-Added_example =
    add_virtual_page-Added enough ram (add_section 7 0 ram) 7 0x10003000 0x8000 ram-Place

abbrev enough_space : SpaceRequests
enough_space = record { space = λ m. some (7, m); list_entry = λ m. some m }

create_address_space-Created_example :
    (m : Machine) × (create_address_space enough_space ram ≡ some (7, m))
    × (m.address_spaces ≡ 7 ∷ [])
    × Created ram m 7
unfolding share_space set_space
create_address_space-Created_example =
    create_address_space-Created enough_space 7 ram ram (share_space 7 ram) refl refl refl refl

-- In the first megabyte.
ram-read_word : (d : ℕ) → d < 2 ^ 20 → read_word ram (0xec000000 + d) ≡ ram.words (0x10000000 + d)
unfolding read_word get_physical_address translate
ram-read_word d h =
    let s : (0xec000000 + d) / 2 ^ 20 ≡ 3776 = omega arith in
    let o : (0xec000000 + d) % 2 ^ 20 ≡ d = omega arith in rw (s, o) refl

ram-empty : (d : ℕ) → d < 2 ^ 20 → d ≢ 0x1400 → read_word ram (0xec000000 + d) ≡ 0
ram-empty d h n = ram-read_word d h ∙ elim (Bool-cases (0x10000000 + d == 0x10001400)) [
  | inl e ↦ absurd (n (let q = (==_iff _ _).0 e in omega (arith, q)))
  | inr e ↦ rw e refl
]

abbrev with_page : Machine
with_page = elim (add_kernel_page 1 1 enough 0x10003000 0xe4000000 ram) [ none ↦ ram | some m ↦ m ]

with_page_lem : add_kernel_page 1 1 enough 0x10003000 0xe4000000 ram ≡ some with_page
unfolding add_kernel_page search
with_page_lem = refl

abbrev with_space : Machine
with_space = list_space 7 (share_space 7 with_page)

with_space_lem : create_address_space enough_space with_page ≡ some (7, with_space)
unfolding create_address_space
with_space_lem = refl

-- No section is left out until the growth for an object lists a table for section 3650.
abbrev migrated_late : Machine
migrated_late = migrate_kernel_cpt (3650 * 2 ^ 20) 0xec002000 256 0xec003000 with_space

no_growth : (out : List ℕ) (n n' : Machine) → enough.list_entry n ≡ some n' → Growth out n n'
no_growth out n n' e = subst (Growth out n) (some-injective _ _ e) none_needed

no_growth_table :
    (out : List ℕ) (n n' : Machine) (cpt : ℕ) → enough.table n ≡ some (cpt, n') → Growth out n n'
no_growth_table out n n' cpt e =
    subst (Growth out n) (ap (λ (p : ℕ × Machine). p.1) (some-injective _ _ e)) none_needed

no_growth_space :
    (out : List ℕ) (n n' : Machine) (t : ℕ) → enough_space.space n ≡ some (t, n') → Growth out n n'
no_growth_space out n n' t e =
    subst (Growth out n) (ap (λ (p : ℕ × Machine). p.1) (some-injective _ _ e)) none_needed

Reach-SharesBut_example : SharesBut (3650 ∷ []) migrated_late
Reach-SharesBut_example = Reach-SharesBut (3650 ∷ []) ram migrated_late refl (
    next
      (next
        (next start (
          kernel_page 1 1 0x10003000 0xe4000000 enough with_page (no_growth (3650 ∷ []))
            (no_growth_table (3650 ∷ [])) with_page_lem))
        (created enough_space 7 with_space (no_growth_space (3650 ∷ [])) (no_growth (3650 ∷ []))
          with_space_lem))
      (objects (migrated (3650 * 2 ^ 20) 0xec002000 256 0xec003000 refl)))
