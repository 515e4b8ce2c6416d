-- ===== src/Virtual/Created.antt =====
-- What a new address space maps.
use osext.Common.{
  ℕ, zero, suc, ◌+◌, ◌-◌, ◌*◌, ◌/◌, ◌%◌, ◌^◌, ◌≤◌, ◌<◌, true, false, ◌==◌, ◌&&◌, ltb, leb,
  if◌then◌else◌, ◌≡◌, ◌≢◌, refl, sym, ap, ◌∙◌, arith, Bool-cases, inl, inr, ==_iff, some, List, [],
  ◌∷◌,
}
use mathlib.Core.Path.{subst}
use osext.Common.Bits.{bit_or-disjoint}
use osext.Virtual.Descriptors.{new_sd}
use osext.Virtual.Space.{Space, Machine, translate, get_physical_address, set_tt, set_space}
use osext.Virtual.Create.{
  map_ram, map_io, share_kernel, SpaceRequests, share_space, list_space, create_address_space,
}
use osext.Virtual.Words.{translate-same}
use osext.Virtual.Shares.{All, NotKernel, Has, has, has-All, share_kernel-Has}

new_sd_lem : (base : ℕ) → new_sd 1 1 0 1 base ≡ base / 2 ^ 20 * 2 ^ 20 + 1054
unfolding new_sd
new_sd_lem base = omega (arith, bit_or-disjoint 20 1054 (base / 2 ^ 20) (omega arith))

map_ram-tt :
    (n : ℕ) (space : Space) (j : ℕ)
    → n ≤ 64
    → (map_ram n space).tt j ≡ (
        if leb (3840 - n) j && ltb j 3840
        then new_sd 1 1 0 1 (0x10000000 + (j - 3776) * 2 ^ 20)
        else space.tt j)
unfolding map_ram set_tt
map_ram-tt zero space j h = ground arith
map_ram-tt (suc n) space j h =
    let i : (0xec000000 + (63 - n) * 2 ^ 20) / 2 ^ 20 ≡ 3839 - n = omega arith in
    let d = new_sd 1 1 0 1 (0x10000000 + (63 - n) * 2 ^ 20) in
    ap (λ i. (map_ram n (set_tt i d space)).tt j) i
    ∙ map_ram-tt n (set_tt (3839 - n) d space) j (omega arith)
    ∙ elim (Bool-cases (j == 3839 - n)) [
      | inl e ↦
          let q : j ≡ 3839 - n = (==_iff j (3839 - n)).0 e in
          let base : 63 - n ≡ j - 3776 = omega (arith, q, h) in
          rw (e, sym base) (ground (arith, q, h))
      | inr e ↦ rw e (ground (arith, e, h))
    ]

map_io-tt : (space : Space) (j : ℕ) → 3740 ≤ j → (map_io space).tt j ≡ space.tt j
unfolding map_io set_tt
map_io-tt space j h = ground arith

share_kernel-other :
    (kernel : Space) (cs : List ℕ) (space : Space) (j : ℕ)
    → All (λ c. j ≢ c / 2 ^ 20) cs
    → (share_kernel kernel cs space).tt j ≡ space.tt j
unfolding share_kernel set_tt
share_kernel-other kernel [] space j h = refl
share_kernel-other kernel (c ∷ cs) space j h =
    let n : (j == c / 2 ^ 20) ≡ false = ground (arith, h.0) in
    share_kernel-other kernel cs (set_tt (c / 2 ^ 20) (kernel.tt (c / 2 ^ 20)) space) j h.1
    ∙ rw n refl

none_mapped : Space
none_mapped = record { tt = λ _. 0; cptds = []; cpts = [] }

-- Of an address in a section with a descriptor of its own.
section_lem :
    (words table : ℕ → ℕ) (a base : ℕ)
    → table (a / 2 ^ 20) ≡ new_sd 1 1 0 1 base
    → translate words table a ≡ base / 2 ^ 20 * 2 ^ 20 + a % 2 ^ 20
unfolding translate
section_lem words table a base e =
    let w = e ∙ new_sd_lem base in
    let kind : (base / 2 ^ 20 * 2 ^ 20 + 1054) % 4 ≡ 2 = omega arith in
    let address : (base / 2 ^ 20 * 2 ^ 20 + 1054) / 2 ^ 20 ≡ base / 2 ^ 20 = omega arith in
    rw (w, kind, address) refl

-- What the new space maps: the RAM at 0xec000000, and the sections that the kernel had on `m`.
pub record Created (m m' : Machine) (s : ℕ) : Type 0 where
  pub ram :
      (a : ℕ)
      → 0xec000000 ≤ a
      → a < 0xf0000000
      → NotKernel m a
      → get_physical_address m' (m'.spaces s) a ≡ a - 0xec000000 + 0x10000000
  pub kernel :
      (a section : ℕ)
      → has section m.kernel.cptds ≡ true
      → a / 2 ^ 20 ≡ section / 2 ^ 20
      → get_physical_address m' (m'.spaces s) a ≡ get_physical_address m' m'.kernel a

share_space-Created :
    (s : ℕ) (m m' : Machine)
    → m'.spaces s ≡ (share_space s m).spaces s
    → m'.kernel.tt ≡ m.kernel.tt
    → Created m m' s
unfolding share_space set_space get_physical_address none_mapped
share_space-Created s m m' space kernel_tt =
    let own : (s == s) ≡ true = (==_iff s s).1 refl in
    let new = share_kernel m.kernel m.kernel.cptds (map_io (map_ram 64 none_mapped)) in
    let here : (j : ℕ) → (m'.spaces s).tt j ≡ new.tt j =
      λ j. ap (λ (p : Space). p.tt j) space ∙ rw own refl in
    record {
      ram = λ a low high out.
          let tables : new.tt (a / 2 ^ 20)
              ≡ new_sd 1 1 0 1 (0x10000000 + (a / 2 ^ 20 - 3776) * 2 ^ 20) =
            share_kernel-other m.kernel m.kernel.cptds (map_io (map_ram 64 none_mapped))
              (a / 2 ^ 20) out
            ∙ map_io-tt (map_ram 64 none_mapped) (a / 2 ^ 20) (omega arith)
            ∙ map_ram-tt 64 none_mapped (a / 2 ^ 20) (omega arith)
            ∙ ground arith in
          section_lem m'.words (m'.spaces s).tt a (0x10000000 + (a / 2 ^ 20 - 3776) * 2 ^ 20)
            (here (a / 2 ^ 20) ∙ tables)
          ∙ omega arith;
      kernel = λ a section e at.
          let shared =
            has-All (Has m.kernel new) m.kernel.cptds section e
              (share_kernel-Has m.kernel m.kernel.cptds (map_io (map_ram 64 none_mapped))) in
          translate-same m'.words m'.words (m'.spaces s).tt m'.kernel.tt a
            (here (a / 2 ^ 20)
              ∙ subst (λ i. new.tt i ≡ m.kernel.tt i) (sym at) shared
              ∙ sym (ap (λ (t : ℕ → ℕ). t (a / 2 ^ 20)) kernel_tt))
            (λ _. refl);
    }

-- Creating an address space succeeds where its requests do. If the request for its entry in the
-- list of spaces leaves the new space and the kernel's descriptors as they are, then the new space
-- maps the 64 MB from 0xec000000 on to the RAM, where the kernel has no section, and every address
-- of a section that the kernel has behind the requests for the space as the kernel does, and it is
-- the first of the list.
pub create_address_space-Created :
    (q : SpaceRequests) (s : ℕ) (m m1 m2 : Machine)
    → q.space m ≡ some (s, m1)
    → q.list_entry (share_space s m1) ≡ some m2
    → m2.spaces s ≡ (share_space s m1).spaces s
    → m2.kernel.tt ≡ m1.kernel.tt
    → (m' : Machine) × (create_address_space q m ≡ some (s, m'))
      × (m'.address_spaces ≡ s ∷ m2.address_spaces)
      × Created m1 m' s
unfolding create_address_space list_space
create_address_space-Created q s m m1 m2 asked listed space kernel = (
  list_space s m2,
  rw (create_address_space, asked, listed) refl,
  refl,
  share_space-Created s m1 (list_space s m2) space kernel,
)
