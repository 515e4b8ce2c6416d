-- ===== src/Virtual/Translate.antt =====
-- The words of a coarse page table, written through the kernel's mapping.
use osext.Common.{
  ℕ, zero, suc, ◌+◌, ◌*◌, ◌%◌, ◌≤◌, ◌<◌, false, ◌==◌, ◌&&◌, ltb, leb, if◌then◌else◌, ◌≡◌, ◌≢◌, refl,
  sym, ap, ◌∙◌, arith,
}
use mathlib.Core.Path.{subst}
use osext.Virtual.Space.{Machine, translate, get_physical_address, write_word, clear_words}
use osext.Virtual.Words.{translate-offset, Apart, SameOutside, translate-Apart}

-- The kernel sees at `cpt` the table at the physical address `base`, and maps nothing through it.
pub record TableAt (m : Machine) (cpt base : ℕ) : Type 0 where
  pub cpt_aligned : cpt % 1024 ≡ 0
  pub base_aligned : base % 1024 ≡ 0
  pub base_pos : base ≢ 0
  pub seen : get_physical_address m m.kernel cpt ≡ base
  pub apart : Apart m.kernel.tt base

-- The words have changed inside the table only, and nothing else has.
pub record Wrote (base : ℕ) (m m' : Machine) : Type 0 where
  pub outside : SameOutside base m.words m'.words
  pub kernel : m'.kernel ≡ m.kernel
  pub spaces : m'.spaces ≡ m.spaces
  pub address_spaces : m'.address_spaces ≡ m.address_spaces

pub seen-offset :
    (m : Machine) (cpt base d : ℕ)
    → TableAt m cpt base
    → d < 1024
    → get_physical_address m m.kernel (cpt + d) ≡ base + d
unfolding get_physical_address
seen-offset m cpt base d t l =
    translate-offset m.words m.kernel.tt cpt d t.cpt_aligned l (λ z. t.base_pos (sym t.seen ∙ z))
    ∙ ap (λ p. p + d) t.seen

pub Wrote-TableAt :
    (m m' : Machine) (cpt base : ℕ) → TableAt m cpt base → Wrote base m m' → TableAt m' cpt base
unfolding get_physical_address
Wrote-TableAt m m' cpt base t w = record {
  cpt_aligned = t.cpt_aligned;
  base_aligned = t.base_aligned;
  base_pos = t.base_pos;
  seen =
      ap (λ k. translate m'.words k.tt cpt) w.kernel
      ∙ sym (translate-Apart m.words m'.words m.kernel.tt base cpt t.base_aligned t.apart w.outside)
      ∙ t.seen;
  apart = subst (λ k. Apart k.tt base) (sym w.kernel) t.apart;
}

pub write_word-Wrote :
    (m : Machine) (cpt base d v : ℕ)
    → TableAt m cpt base
    → d < 1024
    → Wrote base m (write_word (cpt + d) v m)
unfolding write_word
write_word-Wrote m cpt base d v t l = record {
  outside = λ q h.
      let far : q ≢ base + d = λ e. h (omega (arith, e)) (omega (arith, e, l)) in
      let no : (q == base + d) ≡ false = ground (arith, far) in
      rw (seen-offset m cpt base d t l, no) refl;
  kernel = refl;
  spaces = refl;
  address_spaces = refl;
}

pub write_word-words :
    (m : Machine) (cpt base d v q : ℕ)
    → TableAt m cpt base
    → d < 1024
    → (write_word (cpt + d) v m).words q ≡ (if q == base + d then v else m.words q)
unfolding write_word
write_word-words m cpt base d v q t l = rw (seen-offset m cpt base d t l) refl

pub Wrote-trans :
    (base : ℕ) (m m' m'' : Machine) → Wrote base m m' → Wrote base m' m'' → Wrote base m m''
Wrote-trans base m m' m'' a b = record {
  outside = λ q h. a.outside q h ∙ b.outside q h;
  kernel = b.kernel ∙ a.kernel;
  spaces = b.spaces ∙ a.spaces;
  address_spaces = b.address_spaces ∙ a.address_spaces;
}

pub clear_words-Wrote :
    (n d : ℕ) (m : Machine) (cpt base : ℕ)
    → TableAt m cpt base
    → d + 4 * n ≤ 1024
    → Wrote base m (clear_words n (cpt + d) m)
unfolding clear_words
clear_words-Wrote zero d m cpt base t l = record {
  outside = λ q h. refl;
  kernel = refl;
  spaces = refl;
  address_spaces = refl;
}
clear_words-Wrote (suc n) d m cpt base t l =
    let m' = write_word (cpt + d) 0 m in
    let w = write_word-Wrote m cpt base d 0 t (omega arith) in
    let next : cpt + d + 4 ≡ cpt + (d + 4) = omega arith in
    rw next (
      Wrote-trans base m m' (clear_words n (cpt + (d + 4)) m') w
        (clear_words-Wrote n (d + 4) m' cpt base (Wrote-TableAt m m' cpt base t w) (omega arith)))

-- Each word of the cleared part is 0.
pub clear_words-words :
    (n d : ℕ) (m : Machine) (cpt base i : ℕ)
    → TableAt m cpt base
    → d + 4 * n ≤ 1024
    → (clear_words n (cpt + d) m).words (base + 4 * i) ≡ (
        if leb d (4 * i) && ltb (4 * i) (d + 4 * n) && (d % 4 == 0)
        then 0
        else m.words (base + 4 * i))
unfolding clear_words
clear_words-words zero d m cpt base i t l = ground arith
clear_words-words (suc n) d m cpt base i t l =
    let m' = write_word (cpt + d) 0 m in
    let w = write_word-Wrote m cpt base d 0 t (omega arith) in
    let next : cpt + d + 4 ≡ cpt + (d + 4) = omega arith in
    let here = write_word-words m cpt base d 0 (base + 4 * i) t (omega arith) in
    ap (λ p. (clear_words n p m').words (base + 4 * i)) next
    ∙ clear_words-words n (d + 4) m' cpt base i (Wrote-TableAt m m' cpt base t w) (omega arith)
    ∙ ground (arith, here)
