-- ===== src/Virtual/Growth.antt =====
-- What the growth of caches does to the machine while objects are requested: the calls of
-- `growCache`.
use osext.Common.{ℕ, zero, suc, ◌/◌, ◌^◌, true, false, ◌≡◌, sym, ap, ◌∙◌, none, some, List, [], ◌∷◌}
use mathlib.Core.Path.{subst}
use osext.Virtual.Space.{Space, Machine, write_word, search, set_tt}
use osext.Virtual.Map.{section_of, Requests, add_kernel_page, migrate_kernel_cpt, without_index}
use osext.Virtual.Shares.{All, All-lem, All-self, has, has-All, HasBut, SharesBut}

-- Words are written. `addUnlistedKernelPage` maps a new table, and `migrateKernelCPT` lists one,
-- both for sections whose indices are in `out`. `addVirtualKernelPage` enters a page in a section
-- that the kernel has, or in one of `out`; its own requests are such growth.
pub data Growth (out : List ℕ) : Machine → Machine → Type 0 where
  none_needed : {m : Machine} → Growth out m m
  followed : {m m' m'' : Machine} → Growth out m m' → Growth out m' m'' → Growth out m m''
  written : {m : Machine} (adr w : ℕ) → Growth out m (write_word adr w m)
  unlisted :
      {m : Machine} (i d : ℕ)
      → has i out ≡ true
      → Growth out m (record m { kernel = set_tt i d m.kernel })
  migrated :
      {m : Machine} (section migrate_cpt pages cpt : ℕ)
      → has (section / 2 ^ 20) out ≡ true
      → Growth out m (migrate_kernel_cpt section migrate_cpt pages cpt m)
  kernel_page :
      {m : Machine} (c b page adr : ℕ) (q : Requests) (m' : Machine)
      → ((n n' : Machine) → q.list_entry n ≡ some n' → Growth out n n')
      → ((n n' : Machine) (cpt : ℕ) → q.table n ≡ some (cpt, n') → Growth out n n')
      → (search 0 (section_of adr) m.kernel.cptds ≡ none → has (section_of adr / 2 ^ 20) out ≡ true)
      → add_kernel_page c b q page adr m ≡ some m'
      → Growth out m m'

-- Outside of `out`, the descriptors and the kernel's sections stay, and so do the address spaces.
pub record Quiet (out : List ℕ) (m m' : Machine) : Type 0 where
  pub list : m'.address_spaces ≡ m.address_spaces
  pub kernel : (j : ℕ) → has j out ≡ false → m'.kernel.tt j ≡ m.kernel.tt j
  pub spaces : (s j : ℕ) → has j out ≡ false → (m'.spaces s).tt j ≡ (m.spaces s).tt j
  pub sections :
      All (λ c. has (c / 2 ^ 20) out ≡ false → has c m.kernel.cptds ≡ true) m'.kernel.cptds

pub sections_same :
    (out : List ℕ) (m m' : Machine)
    → m'.kernel.cptds ≡ m.kernel.cptds
    → All (λ c. has (c / 2 ^ 20) out ≡ false → has c m.kernel.cptds ≡ true) m'.kernel.cptds
sections_same out m m' e =
    subst (All (λ c. has (c / 2 ^ 20) out ≡ false → has c m.kernel.cptds ≡ true)) (sym e)
      (All-lem m.kernel.cptds (λ c h _. h) (All-self m.kernel.cptds))

pub Quiet-refl :
    (out : List ℕ) (m m' : Machine)
    → m'.kernel ≡ m.kernel
    → ((s j : ℕ) → (m'.spaces s).tt j ≡ (m.spaces s).tt j)
    → m'.address_spaces ≡ m.address_spaces
    → Quiet out m m'
Quiet-refl out m m' k t l = record {
  list = l;
  kernel = λ j _. ap (λ (x : Space). x.tt j) k;
  spaces = λ s j _. t s j;
  sections = sections_same out m m' (ap (λ (x : Space). x.cptds) k);
}

pub Quiet-trans :
    (out : List ℕ) (m m' m'' : Machine) → Quiet out m m' → Quiet out m' m'' → Quiet out m m''
Quiet-trans out m m' m'' a b = record {
  list = b.list ∙ a.list;
  kernel = λ j o. b.kernel j o ∙ a.kernel j o;
  spaces = λ s j o. b.spaces s j o ∙ a.spaces s j o;
  sections =
      All-lem m''.kernel.cptds
        (λ c h o.
          has-All (λ x. has (x / 2 ^ 20) out ≡ false → has x m.kernel.cptds ≡ true) m'.kernel.cptds
            c (h o) a.sections o)
        b.sections;
}

-- What is quiet keeps the shared sections.
pub Quiet-SharesBut :
    (out : List ℕ) (m m' : Machine) → Quiet out m m' → SharesBut out m → SharesBut out m'
Quiet-SharesBut out m m' q h =
    subst (All (λ s. All (HasBut out m'.kernel (m'.spaces s)) m'.kernel.cptds)) (sym q.list) (
      All-lem m.address_spaces
        (λ s a.
          All-lem m'.kernel.cptds
            (λ c p o.
              q.spaces s (c / 2 ^ 20) o
              ∙ has-All (HasBut out m.kernel (m.spaces s)) m.kernel.cptds c (p o) a o
              ∙ sym (q.kernel (c / 2 ^ 20) o))
            q.sections)
        h)

pub without_index-All :
    (P : ℕ → Type 0) (i : ℕ) (xs : List ℕ) → All P xs → All P (without_index i xs)
unfolding without_index
without_index-All P i [] h = tt
without_index-All P zero (x ∷ xs) h = h.1
without_index-All P (suc i) (x ∷ xs) h = (h.0, without_index-All P i xs h.1)
