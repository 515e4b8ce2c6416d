-- ===== src/Virtual/Added.antt =====
-- What `addVirtualPage` does to an address space.
use osext.Common.{
  ℕ, ◌+◌, ◌*◌, ◌/◌, ◌%◌, ◌^◌, ◌<◌, true, false, ◌==◌, if◌then◌else◌, ◌≡◌, ◌≢◌, refl, sym, ap, ◌∙◌,
  arith, Bool-cases, inl, inr, ==_iff, none, some,
}
use mathlib.Core.Path.{subst}
use osext.Virtual.Descriptors.{new_spd}
use osext.Virtual.Space.{
  Machine, translate, get_physical_address, write_word, clear_words, search, entry, set_tt,
  set_space,
}
use osext.Virtual.Map.{
  section_of, table_index, Requests, add_section, user_section, add_virtual_page,
}
use osext.Virtual.Words.{
  new_cptd_lem, new_spd_lem, translate-same, translate-page, translate-unmapped, translate-invalid,
  Apart, translate-Apart,
}
use osext.Virtual.Translate.{
  TableAt, Wrote, Wrote-TableAt, write_word-Wrote, write_word-words, clear_words-Wrote,
  clear_words-words,
}

-- Where the page of `adr` is to be entered, on the machine `n`: in the table that its section has,
-- on the machine as it is, or, if it has none, in the new table, on the machine as the requests
-- leave it. No other section of the space is mapped through the table.
pub data Place (q : Requests) (m : Machine) (s adr : ℕ) : Machine → Type 0 where
  known :
      (i table base : ℕ)
      → search 0 (section_of adr) (m.spaces s).cptds ≡ some i
      → entry (m.spaces s).cpts i ≡ some table
      → TableAt m table base
      → (m.spaces s).tt (adr / 2 ^ 20) ≡ base + 17
      → ((j : ℕ)
          → j ≢ adr / 2 ^ 20
          → (m.spaces s).tt j % 4 ≡ 1
          → (m.spaces s).tt j / 1024 * 1024 ≢ base)
      → Place q m s adr m
  fresh :
      (m1 n : Machine) (cpt base : ℕ)
      → search 0 (section_of adr) (m.spaces s).cptds ≡ none
      → q.list_entry m ≡ some m1
      → q.table (add_section s (section_of adr) m1) ≡ some (cpt, n)
      → (n.spaces s).tt (adr / 2 ^ 20) % 4 ≡ 0
      → TableAt n cpt base
      → Apart (n.spaces s).tt base
      → Place q m s adr n

-- The page is mapped, everything else is as before, for the space and for the kernel.
pub record Added (m m' : Machine) (s page adr : ℕ) : Type 0 where
  pub mapped :
      (a : ℕ)
      → get_physical_address m' (m'.spaces s) a ≡ (
          if a / 4096 == adr / 4096
          then page / 4096 * 4096 + a % 4096
          else get_physical_address m (m.spaces s) a)
  pub kernel_same :
      (a : ℕ) → get_physical_address m' m'.kernel a ≡ get_physical_address m m.kernel a

table_index_lem : (adr : ℕ) → table_index adr ≡ adr / 4096 % 256
unfolding table_index section_of
table_index_lem adr = omega arith

Wrote-kernel :
    (m m' : Machine) (cpt base a : ℕ)
    → TableAt m cpt base
    → Wrote base m m'
    → get_physical_address m' m'.kernel a ≡ get_physical_address m m.kernel a
unfolding get_physical_address
Wrote-kernel m m' cpt base a t w =
    ap (λ k. translate m'.words k.tt a) w.kernel
    ∙ sym (translate-Apart m.words m'.words m.kernel.tt base a t.base_aligned t.apart w.outside)

==_false : (a b : ℕ) → (a == b) ≡ false → a ≢ b
==_false a b h = ground arith

other_word :
    (table : ℕ → ℕ) (base adr a : ℕ)
    → base % 1024 ≡ 0
    → table (adr / 2 ^ 20) ≡ base + 17
    → a / 4096 ≢ adr / 4096
    → ((j : ℕ) → j ≢ adr / 2 ^ 20 → table j % 4 ≡ 1 → table j / 1024 * 1024 ≢ base)
    → table (a / 2 ^ 20) % 4 ≡ 1
    → table (a / 2 ^ 20) / 1024 * 1024 + 4 * (a / 4096 % 256) ≢ base + 4 * (adr / 4096 % 256)
other_word table base adr a al d ne only c e = elim (Bool-cases (a / 2 ^ 20 == adr / 2 ^ 20)) [
  | inl y ↦
      let x : a / 2 ^ 20 ≡ adr / 2 ^ 20 = (==_iff (a / 2 ^ 20) (adr / 2 ^ 20)).0 y in
      let b : table (a / 2 ^ 20) ≡ base + 17 = ap table x ∙ d in ne (omega (arith, x, b, e, al))
  | inr n ↦ only (a / 2 ^ 20) (==_false (a / 2 ^ 20) (adr / 2 ^ 20) n) c (omega (arith, e, al))
]

entered_words :
    (words words' table : ℕ → ℕ) (base adr spd page a : ℕ)
    → base % 1024 ≡ 0
    → table (adr / 2 ^ 20) ≡ base + 17
    → (spd % 4 ≡ 2) × (spd / 4096 * 4096 ≡ page / 4096 * 4096)
    → ((j : ℕ) → j ≢ adr / 2 ^ 20 → table j % 4 ≡ 1 → table j / 1024 * 1024 ≢ base)
    → ((q : ℕ) → words' q ≡ (if q == base + 4 * (adr / 4096 % 256) then spd else words q))
    → translate words' table a
      ≡ (if a / 4096 == adr / 4096 then page / 4096 * 4096 + a % 4096 else translate words table a)
entered_words words words' table base adr spd page a al d spd_lem only w =
    elim (Bool-cases (a / 4096 == adr / 4096)) [
      | inl e ↦ rw e (
          translate-page words' table base adr a spd page al d
            (ground (arith, w (base + 4 * (adr / 4096 % 256)))) spd_lem.0 spd_lem.1
            ((==_iff (a / 4096) (adr / 4096)).0 e))
      | inr e ↦ rw e (
          sym (
            translate-same words words' table table a refl (λ c.
              let q = table (a / 2 ^ 20) / 1024 * 1024 + 4 * (a / 4096 % 256) in
              let far : q ≢ base + 4 * (adr / 4096 % 256) =
                other_word table base adr a al d (==_false (a / 4096) (adr / 4096) e) only c in
              let no : (q == base + 4 * (adr / 4096 % 256)) ≡ false = ground (arith, far) in
              sym (w q ∙ rw no refl))))
    ]

-- An entry in a known table.
entered :
    (m : Machine) (s page adr table base : ℕ)
    → TableAt m table base
    → (m.spaces s).tt (adr / 2 ^ 20) ≡ base + 17
    → ((j : ℕ)
        → j ≢ adr / 2 ^ 20
        → (m.spaces s).tt j % 4 ≡ 1
        → (m.spaces s).tt j / 1024 * 1024 ≢ base)
    → Added m (write_word (table + 4 * table_index adr) (new_spd 1 1 255 page) m) s page adr
unfolding get_physical_address write_word
entered m s page adr table base t d only =
    let i = table_index_lem adr in
    let small : 4 * table_index adr < 1024 = omega (arith, i) in
    let w = write_word-Wrote m table base (4 * table_index adr) (new_spd 1 1 255 page) t small in
    record {
      mapped = λ a.
          entered_words m.words
            (write_word (table + 4 * table_index adr) (new_spd 1 1 255 page) m).words
            (m.spaces s).tt base adr (new_spd 1 1 255 page) page a t.base_aligned d
            (new_spd_lem 1 1 255 page (omega arith)) only
            (λ q.
              write_word-words m table base (4 * table_index adr) (new_spd 1 1 255 page) q t small
              ∙ ap (λ j. if q == base + 4 * j then new_spd 1 1 255 page else m.words q) i);
      kernel_same = λ a.
          Wrote-kernel m (write_word (table + 4 * table_index adr) (new_spd 1 1 255 page) m) table
            base a t w;
    }

-- The new section, before the entry.
record Prepared (m m' : Machine) (s adr cpt base : ℕ) : Type 0 where
  same : (a : ℕ) → get_physical_address m' (m'.spaces s) a ≡ get_physical_address m (m.spaces s) a
  kernel : (a : ℕ) → get_physical_address m' m'.kernel a ≡ get_physical_address m m.kernel a
  table : TableAt m' cpt base
  descriptor : (m'.spaces s).tt (adr / 2 ^ 20) ≡ base + 17
  only :
      (j : ℕ)
      → j ≢ adr / 2 ^ 20
      → (m'.spaces s).tt j % 4 ≡ 1
      → (m'.spaces s).tt j / 1024 * 1024 ≢ base

clear_table-Wrote :
    (m : Machine) (cpt base : ℕ) → TableAt m cpt base → Wrote base m (clear_words 256 cpt m)
clear_table-Wrote m cpt base t =
    subst (λ p. Wrote base m (clear_words 256 p m)) (omega arith)
      (clear_words-Wrote 256 0 m cpt base t (omega arith))

clear_table-zero :
    (m : Machine) (cpt base i : ℕ)
    → TableAt m cpt base
    → i < 256
    → (clear_words 256 cpt m).words (base + 4 * i) ≡ 0
clear_table-zero m cpt base i t l =
    ap (λ p. (clear_words 256 p m).words (base + 4 * i)) (omega arith)
    ∙ clear_words-words 256 0 m cpt base i t (omega arith)
    ∙ ground arith

-- The translation table of the space after the new section.
section_tt :
    (m : Machine) (s section cpt base j : ℕ)
    → TableAt m cpt base
    → ((user_section s section cpt m).spaces s).tt j
      ≡ (if j == section / 2 ^ 20 then base + 17 else (m.spaces s).tt j)
unfolding user_section set_space set_tt get_physical_address
section_tt m s section cpt base j t =
    let own : (s == s) ≡ true = (==_iff s s).1 refl in
    let c = clear_words 256 cpt m in
    let seen = (Wrote-TableAt m c cpt base t (clear_table-Wrote m cpt base t)).seen in
    let al : base / 1024 * 1024 ≡ base = omega (arith, t.base_aligned) in
    rw (own, seen, new_cptd_lem base, al) refl

user_section-TableAt :
    (m : Machine) (s section cpt base : ℕ)
    → TableAt m cpt base
    → TableAt (user_section s section cpt m) cpt base
unfolding user_section set_space get_physical_address
user_section-TableAt m s section cpt base t =
    let c = Wrote-TableAt m (clear_words 256 cpt m) cpt base t (clear_table-Wrote m cpt base t) in
    record {
      cpt_aligned = c.cpt_aligned;
      base_aligned = c.base_aligned;
      base_pos = c.base_pos;
      seen = c.seen;
      apart = c.apart;
    }

user_section-same :
    (m : Machine) (s adr cpt base a : ℕ)
    → TableAt m cpt base
    → Apart (m.spaces s).tt base
    → (m.spaces s).tt (adr / 2 ^ 20) % 4 ≡ 0
    → (tt' : ℕ → ℕ)
    → ((j : ℕ) → tt' j ≡ (if j == adr / 2 ^ 20 then base + 17 else (m.spaces s).tt j))
    → translate (clear_words 256 cpt m).words tt' a ≡ translate m.words (m.spaces s).tt a
user_section-same m s adr cpt base a t apart invalid tt' d =
    elim (Bool-cases (a / 2 ^ 20 == adr / 2 ^ 20)) [
      | inl y ↦
          let x : a / 2 ^ 20 ≡ adr / 2 ^ 20 = (==_iff (a / 2 ^ 20) (adr / 2 ^ 20)).0 y in
          translate-unmapped (clear_words 256 cpt m).words tt' base a t.base_aligned
            (d (a / 2 ^ 20) ∙ rw y refl)
            (clear_table-zero m cpt base (a / 4096 % 256) t (omega arith))
          ∙ sym (
              translate-invalid m.words (m.spaces s).tt a
                (ap (λ j. (m.spaces s).tt j % 4) x ∙ invalid))
      | inr n ↦ sym (
          translate-same m.words (clear_words 256 cpt m).words (m.spaces s).tt tt' a
            (sym (d (a / 2 ^ 20) ∙ rw n refl))
            (λ c.
              (clear_table-Wrote m cpt base t).outside
                ((m.spaces s).tt (a / 2 ^ 20) / 1024 * 1024 + 4 * (a / 4096 % 256))
                (λ l u. apart (a / 2 ^ 20) c (omega (arith, t.base_aligned, l, u)))))
    ]

section-index : (adr : ℕ) → section_of adr / 2 ^ 20 ≡ adr / 2 ^ 20
unfolding section_of
section-index adr = omega arith

user_section-Prepared :
    (m : Machine) (s adr cpt base : ℕ)
    → TableAt m cpt base
    → Apart (m.spaces s).tt base
    → (m.spaces s).tt (adr / 2 ^ 20) % 4 ≡ 0
    → Prepared m (user_section s (section_of adr) cpt m) s adr cpt base
unfolding get_physical_address user_section set_space
user_section-Prepared m s adr cpt base t apart invalid =
    let d = λ (j : ℕ).
      section_tt m s (section_of adr) cpt base j t
      ∙ ap (λ x. if j == x then base + 17 else (m.spaces s).tt j) (section-index adr) in
    record {
      same = λ a.
          user_section-same m s adr cpt base a t apart invalid
            ((user_section s (section_of adr) cpt m).spaces s).tt d;
      kernel =
          λ a. Wrote-kernel m (clear_words 256 cpt m) cpt base a t (clear_table-Wrote m cpt base t);
      table = user_section-TableAt m s (section_of adr) cpt base t;
      descriptor =
          let own : (adr / 2 ^ 20 == adr / 2 ^ 20) ≡ true = (==_iff _ _).1 refl in
          d (adr / 2 ^ 20) ∙ rw own refl;
      only = λ j ne c.
          let n : (j == adr / 2 ^ 20) ≡ false = ground (arith, ne) in
          let q : ((user_section s (section_of adr) cpt m).spaces s).tt j ≡ (m.spaces s).tt j =
            d j ∙ rw n refl in
          λ e. apart j (ap (λ x. x % 4) (sym q) ∙ c) (ap (λ x. x / 1024 * 1024) (sym q) ∙ e);
    }

-- Adding a page to an address space maps exactly that page: each address of the page translates to
-- the same offset in the physical page, and every other address of the space and every address of
-- the kernel translates as before. It holds for a section that has a table, and then the call
-- requests nothing and does not panic. It holds for a section that is not mapped, where the
-- requests for list entries and a table succeed, if nothing is mapped through the new table and the
-- section is still not mapped; `as before` is then: as on the machine that the requests leave,
-- which may have grown caches.
pub add_virtual_page-Added :
    (q : Requests) (m n : Machine) (s page adr : ℕ)
    → Place q m s adr n
    → (m' : Machine) × (add_virtual_page q s page adr m ≡ some m') × Added n m' s page adr
unfolding add_virtual_page
add_virtual_page-Added q m n s page adr (known i table base e f t d only) = (
  write_word (table + 4 * table_index adr) (new_spd 1 1 255 page) m,
  rw (add_virtual_page, e, f) refl,
  entered m s page adr table base t d only,
)
add_virtual_page-Added q m n s page adr (fresh m1 _ cpt base e asked gave invalid t apart) =
    let m' = user_section s (section_of adr) cpt n in
    let p = user_section-Prepared n s adr cpt base t apart invalid in
    let a = entered m' s page adr cpt base p.table p.descriptor p.only in
    (
      write_word (cpt + 4 * table_index adr) (new_spd 1 1 255 page) m',
      rw (add_virtual_page, e, asked, gave) refl,
      record {
        mapped = λ x.
            a.mapped x
            ∙ ap (λ y. if x / 4096 == adr / 4096 then page / 4096 * 4096 + x % 4096 else y)
                (p.same x);
        kernel_same = λ x. a.kernel_same x ∙ p.kernel x;
      },
    )
