-- ===== src/Virtual/Shares.antt =====
-- The sections of the kernel are mapped in every address space.
use osext.Common.{
  ℕ, zero, suc, ◌+◌, ◌*◌, ◌/◌, ◌^◌, Bool, true, false, ◌==◌, ◌&&◌, ◌||◌, if◌then◌else◌, ◌≡◌, ◌≢◌,
  refl, sym, ap, ◌∙◌, arith, Bool-cases, inl, inr, ==_iff, List, [], ◌∷◌,
}
use mathlib.Core.Path.{subst}
use osext.Common.{◌⊎◌}
use osext.Virtual.Descriptors.{new_cptd, new_spd}
use osext.Virtual.Space.{
  Space, Machine, get_physical_address, write_word, clear_words, set_tt, set_space,
}
use osext.Virtual.Map.{section_of, table_index, add_lists, kernel_section, copy_descriptor}
use osext.Virtual.Create.{map_ram, map_io, share_kernel, share_space, list_space}

abbrev pub All {ℓ} : {A : Type ℓ} → (A → Type 0) → List A → Type 0
All P [] = Unit
All P (x ∷ xs) = P x × All P xs

abbrev pub has : ℕ → List ℕ → Bool
has s [] = false
has s (t ∷ ts) = (t == s) || has s ts

pub All-lem : {P Q : ℕ → Type 0} (xs : List ℕ) → ((x : ℕ) → P x → Q x) → All P xs → All Q xs
All-lem [] f h = tt
All-lem (x ∷ xs) f h = (f x h.0, All-lem xs f h.1)

All-has :
    {P Q : ℕ → Type 0} (xs : List ℕ) → ((x : ℕ) → has x xs ≡ true → P x → Q x) → All P xs → All Q xs
All-has [] f h = tt
All-has (x ∷ xs) f h =
    let own : (x == x) ≡ true = (==_iff x x).1 refl in
    (f x (rw own refl) h.0, All-has xs (λ y e. f y (ground (arith, e))) h.1)

All-every : {P : ℕ → Type 0} (xs : List ℕ) → ((x : ℕ) → P x) → All P xs
All-every [] f = tt
All-every (x ∷ xs) f = (f x, All-every xs f)

-- The space has the kernel's descriptor for the section.
abbrev pub Has : (kernel space : Space) → ℕ → Type 0
Has kernel space section = space.tt (section / 2 ^ 20) ≡ kernel.tt (section / 2 ^ 20)

-- The same but for the sections with the given indices.
abbrev pub HasBut : (out : List ℕ) → (kernel space : Space) → ℕ → Type 0
HasBut out kernel space section = has (section / 2 ^ 20) out ≡ false → Has kernel space section

-- Every address space that exists has the kernel's descriptor for every section of the kernel, but
-- for those with the given indices.
abbrev pub SharesBut : List ℕ → Machine → Type 0
SharesBut out m = All (λ s. All (HasBut out m.kernel (m.spaces s)) m.kernel.cptds) m.address_spaces

pub has-All : (P : ℕ → Type 0) (xs : List ℕ) (x : ℕ) → has x xs ≡ true → All P xs → P x
has-All P [] x e h = absurd (let f : ⊥ = cc in f)
has-All P (y ∷ ys) x e h = elim (Bool-cases (y == x)) [
  | inl q ↦ subst P ((==_iff y x).0 q) h.0
  | inr q ↦ has-All P ys x (rw q at e) h.1
]

pub All-self : (xs : List ℕ) → All (λ x. has x xs ≡ true) xs
All-self xs = All-has xs (λ x e u. e) (All-every {P = λ _. Unit} xs (λ _. tt))

pub copy_descriptor-tt :
    (i : ℕ) (ss : List ℕ) (m : Machine) (s j : ℕ)
    → ((copy_descriptor i ss m).spaces s).tt j
      ≡ (if has s ss && (j == i) then m.kernel.tt i else (m.spaces s).tt j)
unfolding copy_descriptor set_space set_tt
copy_descriptor-tt i [] m s j = refl
copy_descriptor-tt i (t ∷ ts) m s j =
    copy_descriptor-tt i ts (set_space t (set_tt i (m.kernel.tt i) (m.spaces t)) m) s j
    ∙ elim (Bool-cases (s == t)) [
      | inl e ↦
          let q : s ≡ t = (==_iff s t).0 e in
          let e' : (t == s) ≡ true = (==_iff t s).1 (sym q) in
          rw (e, e') (ground (arith, ap (λ x. (m.spaces x).tt j) q))
      | inr e ↦ let e' : (t == s) ≡ false = ground arith in rw (e, e') refl
    ]

pub copy_descriptor-kernel :
    (i : ℕ) (ss : List ℕ) (m : Machine) → (copy_descriptor i ss m).kernel ≡ m.kernel
unfolding copy_descriptor set_space
copy_descriptor-kernel i [] m = refl
copy_descriptor-kernel i (t ∷ ts) m =
    copy_descriptor-kernel i ts (set_space t (set_tt i (m.kernel.tt i) (m.spaces t)) m)

pub copy_descriptor-list :
    (i : ℕ) (ss : List ℕ) (m : Machine) → (copy_descriptor i ss m).address_spaces ≡ m.address_spaces
unfolding copy_descriptor set_space
copy_descriptor-list i [] m = refl
copy_descriptor-list i (t ∷ ts) m =
    copy_descriptor-list i ts (set_space t (set_tt i (m.kernel.tt i) (m.spaces t)) m)

-- Clearing a table changes the words only.
pub clear_words-kernel :
    (n adr : ℕ) (m : Machine)
    → ((clear_words n adr m).kernel ≡ m.kernel)
      × ((clear_words n adr m).spaces ≡ m.spaces)
      × ((clear_words n adr m).address_spaces ≡ m.address_spaces)
unfolding clear_words write_word
clear_words-kernel zero adr m = (refl, refl, refl)
clear_words-kernel (suc n) adr m = clear_words-kernel n (adr + 4) (write_word adr 0 m)

-- The descriptor `d` of a new section goes into the kernel's table and into those of all spaces.
fresh_shared :
    (out : List ℕ) (m m' : Machine) (x d section : ℕ)
    → section / 2 ^ 20 ≡ x
    → m'.kernel.cptds ≡ section ∷ m.kernel.cptds
    → ((j : ℕ) → m'.kernel.tt j ≡ (if j == x then d else m.kernel.tt j))
    → m'.spaces ≡ m.spaces
    → m'.address_spaces ≡ m.address_spaces
    → SharesBut out m
    → SharesBut out (copy_descriptor x m.address_spaces m')
fresh_shared out m m' x d section at lists table spaces list h =
    let k = copy_descriptor-kernel x m.address_spaces m' in
    subst (λ ss. All (λ s. All (HasBut out n.kernel (n.spaces s)) n.kernel.cptds) ss)
      (sym (copy_descriptor-list x m.address_spaces m' ∙ list))
      (All-has m.address_spaces
        (λ s e a.
          subst (All (HasBut out n.kernel (n.spaces s))) (sym (ap (λ k. k.cptds) k ∙ lists)) (
            λ _. here s e section (ap (λ j. j == x) at ∙ (==_iff x x).1 refl),
            All-lem m.kernel.cptds (λ c p f. other s e c (p f)) a,
          ))
        h)
  where
    n : Machine
    n = copy_descriptor x m.address_spaces m'

    kernel_at : (j : ℕ) → n.kernel.tt j ≡ (if j == x then d else m.kernel.tt j)
    kernel_at j = ap (λ k. k.tt j) (copy_descriptor-kernel x m.address_spaces m') ∙ table j

    space_at :
        (s j : ℕ)
        → has s m.address_spaces ≡ true
        → (n.spaces s).tt j ≡ (if j == x then d else (m.spaces s).tt j)
    space_at s j e =
        copy_descriptor-tt x m.address_spaces m' s j
        ∙ rw e (
            let own : (x == x) ≡ true = (==_iff x x).1 refl in
            let k : m'.kernel.tt x ≡ d = table x ∙ rw own refl in
            let f : (m'.spaces s).tt j ≡ (m.spaces s).tt j = ap (λ g. (g s).tt j) spaces in
            rw (k, f) refl)

    here :
        (s : ℕ)
        → has s m.address_spaces ≡ true
        → (c : ℕ) → (c / 2 ^ 20 == x) ≡ true
        → Has n.kernel (n.spaces s) c
    here s e c q = space_at s (c / 2 ^ 20) e ∙ rw q refl ∙ sym (kernel_at (c / 2 ^ 20))

    other :
        (s : ℕ)
        → has s m.address_spaces ≡ true
        → (c : ℕ) → Has m.kernel (m.spaces s) c
        → Has n.kernel (n.spaces s) c
    other s e c p =
        space_at s (c / 2 ^ 20) e
        ∙ ap (λ y. if c / 2 ^ 20 == x then d else y) p
        ∙ sym (kernel_at (c / 2 ^ 20))

pub kernel_section_lem :
    (m : Machine) (section cpt : ℕ)
    → let m' = kernel_section section cpt m in
      (m'.kernel.cptds ≡ section ∷ m.kernel.cptds)
      × (m'.spaces ≡ m.spaces)
      × (m'.address_spaces ≡ m.address_spaces)
unfolding kernel_section add_lists set_tt
kernel_section_lem m section cpt =
    let c = clear_words-kernel 256 cpt m in (ap (λ k. section ∷ k.cptds) c.0, c.1, c.2)

-- The machine of `kernel_section` before the descriptor is written.
abbrev pub listed : (m : Machine) (section cpt : ℕ) → Machine
listed m section cpt = record (clear_words 256 cpt m) {
  kernel = add_lists section cpt (clear_words 256 cpt m).kernel;
}

abbrev pub descriptor : (m : Machine) (section cpt : ℕ) → ℕ
descriptor m section cpt =
    new_cptd 0 (get_physical_address (listed m section cpt) (listed m section cpt).kernel cpt)

pub kernel_section-tt :
    (m : Machine) (section cpt j : ℕ)
    → (kernel_section section cpt m).kernel.tt j
      ≡ (if j == section / 2 ^ 20 then descriptor m section cpt else m.kernel.tt j)
unfolding kernel_section add_lists set_tt
kernel_section-tt m section cpt j =
    ap (λ (k : Space). if j == section / 2 ^ 20 then descriptor m section cpt else k.tt j)
      (clear_words-kernel 256 cpt m).0

-- The new section of the kernel, behind the requests.
pub new_section-SharesBut :
    (out : List ℕ) (c b page adr cpt : ℕ) (m : Machine)
    → SharesBut out m
    → SharesBut out (
        copy_descriptor (section_of adr / 2 ^ 20) m.address_spaces (
          write_word
            (cpt + 4 * table_index adr)
            (new_spd c b 85 page)
            (kernel_section (section_of adr) cpt m)))
unfolding write_word
new_section-SharesBut out c b page adr cpt m h =
    let k = kernel_section (section_of adr) cpt m in
    let l = kernel_section_lem m (section_of adr) cpt in
    fresh_shared out m (write_word (cpt + 4 * table_index adr) (new_spd c b 85 page) k)
      (section_of adr / 2 ^ 20) (descriptor m (section_of adr) cpt) (section_of adr) refl l.0
      (kernel_section-tt m (section_of adr) cpt) l.1 l.2 h

share_kernel-tt :
    (kernel : Space) (ss : List ℕ) (space : Space) (j : ℕ)
    → (((share_kernel kernel ss space).tt j ≡ kernel.tt j)
        ⊎ ((share_kernel kernel ss space).tt j ≡ space.tt j))
unfolding share_kernel set_tt
share_kernel-tt kernel [] space j = inr refl
share_kernel-tt kernel (c ∷ cs) space j =
    elim (share_kernel-tt kernel cs (set_tt (c / 2 ^ 20) (kernel.tt (c / 2 ^ 20)) space) j) [
      | inl e ↦ inl e
      | inr e ↦ elim (Bool-cases (j == c / 2 ^ 20)) [
        | inl q ↦ inl (e ∙ rw q (ap kernel.tt (sym ((==_iff j (c / 2 ^ 20)).0 q))))
        | inr q ↦ inr (e ∙ rw q refl)
      ]
    ]

pub share_kernel-Has :
    (kernel : Space) (ss : List ℕ) (space : Space)
    → All (Has kernel (share_kernel kernel ss space)) ss
unfolding share_kernel set_tt
share_kernel-Has kernel [] space = tt
share_kernel-Has kernel (c ∷ cs) space =
    let own : (c / 2 ^ 20 == c / 2 ^ 20) ≡ true = (==_iff _ _).1 refl in
    let next = set_tt (c / 2 ^ 20) (kernel.tt (c / 2 ^ 20)) space in
    (
      elim (share_kernel-tt kernel cs next (c / 2 ^ 20)) [ inl e ↦ e | inr e ↦ e ∙ rw own refl ],
      share_kernel-Has kernel cs next,
    )

pub list_space-SharesBut :
    (out : List ℕ) (s : ℕ) (m : Machine)
    → SharesBut out m
    → SharesBut out (list_space s (share_space s m))
unfolding share_space list_space set_space
list_space-SharesBut out s m h =
    let sp =
      share_kernel m.kernel m.kernel.cptds
        (map_io (map_ram 64 (record { tt = λ _. 0; cptds = []; cpts = [] }))) in
    let own : (s == s) ≡ true = (==_iff s s).1 refl in
    let all : All (HasBut out m.kernel sp) m.kernel.cptds =
      All-lem m.kernel.cptds (λ c e _. e)
        (share_kernel-Has m.kernel m.kernel.cptds
          (map_io (map_ram 64 (record { tt = λ _. 0; cptds = []; cpts = [] })))) in
    (
      rw own all,
      All-lem m.address_spaces
          (λ t a. elim (Bool-cases (t == s)) [ inl e ↦ rw e all | inr e ↦ rw e a ]) h,
    )

-- The section of the address is none of the kernel's.
abbrev pub NotKernel : Machine → ℕ → Type 0
NotKernel m adr = All (λ c. adr / 2 ^ 20 ≢ c / 2 ^ 20) m.kernel.cptds
