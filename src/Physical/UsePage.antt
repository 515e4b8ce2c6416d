-- ===== src/Physical/UsePage.antt =====
-- `usePage`: the page that it gives, and when there is none.
use osext.Common.{
  ℕ, zero, suc, ◌+◌, ◌-◌, ◌/◌, ◌%◌, ◌≤◌, ◌<◌, true, false, ltb, ◌≡◌, ◌≢◌, arith, ap, ◌∙◌, inl, inr,
  Bool-cases, sym, [], ◌∷◌, Option, none, some,
}
use osext.Common.{Option-cases, lt→ltb}
use mathlib.Core.Path.{subst}
use mathlib.Core.Option.{some-injective}
use mathlib.Core.Option
use osext.Common.Words.{add32, mul32}
use osext.Common.Bits.{bit, bit_low, bit-suc, popcount}
use osext.Physical.{
  PageBlock, Table, page_offset, used_map, write_flags, read_flag, set_bit128, get_bit128,
  is_page_used, set_page_used_bit, find_clear, use_page, take_page, behind,
}
use osext.Physical.Words.{bit128, get_bit128-bit128, get_bit128-le-one}
use osext.Physical.Valid.{
  IsBlock, IsTable, Holds, InTable, in_block-Holds, page_offset_lem, not-in_block_table,
  used_map-IsBitmap,
}
use osext.Physical.Flags.{write_flags-apart}

-- How many ones there can be.
popcount-le : (w n a : ℕ) → ((i : ℕ) → n ≤ i → i < w → bit a i ≡ 0) → popcount w a ≤ n
unfolding popcount
popcount-le zero n a h = omega arith
popcount-le (suc w) zero a h = omega (
  arith,
  bit_low a,
  h 0 (omega arith) (omega arith),
  popcount-le w zero (a / 2)
      (λ i p q. omega (arith, bit-suc a i, h (suc i) (omega arith) (omega arith))),
)
popcount-le (suc w) (suc n) a h = omega (
  arith,
  popcount-le w n (a / 2)
      (λ i p q. omega (arith, bit-suc a i, h (suc i) (omega arith) (omega arith))),
)

popcount-lt :
    (w n a i : ℕ)
    → ((j : ℕ) → n ≤ j → j < w → bit a j ≡ 0)
    → i < n
    → i < w
    → bit a i ≡ 0
    → popcount w a < n
unfolding popcount
popcount-lt zero n a i h p q e = absurd (omega arith)
popcount-lt (suc w) zero a i h p q e = absurd (omega arith)
popcount-lt (suc w) (suc n) a zero h p q e = omega (
  arith,
  bit_low a,
  popcount-le w n (a / 2)
      (λ j r s. omega (arith, bit-suc a j, h (suc j) (omega arith) (omega arith))),
)
popcount-lt (suc w) (suc n) a (suc i) h p q e = omega (
  arith,
  popcount-lt w n (a / 2) i
      (λ j r s. omega (arith, bit-suc a j, h (suc j) (omega arith) (omega arith))) (omega arith)
      (omega arith) (omega (arith, bit-suc a i)),
)

-- The bits behind the last page of the block are clear.
abbrev pub TidyBlock : PageBlock → Type 0
TidyBlock b = (i : ℕ) → b.size ≤ i → i < 128 → get_bit128 (b.used, b.used2) i ≡ 0

abbrev pub Tidy : Table → Type 0
Tidy [] = Unit
Tidy (b ∷ t) = TidyBlock b × Tidy t

low_bit : (b : PageBlock) (i : ℕ) → i < 64 → bit b.used i ≡ get_bit128 (b.used, b.used2) i
unfolding bit128
low_bit b i h = rw get_bit128-bit128 (ground arith)

high_bit : (b : PageBlock) (i : ℕ) → i < 64 → bit b.used2 i ≡ get_bit128 (b.used, b.used2) (i + 64)
unfolding bit128
high_bit b i h = rw get_bit128-bit128 (ground arith)

size_above : (b : PageBlock) → ltb b.size 65 ≡ false → 64 < b.size
size_above b h = ground arith

-- A clear bit within the block shows in the number of ones.
ones-lt-size :
    (b : PageBlock) (i : ℕ)
    → b.size ≤ 128
    → TidyBlock b
    → i < b.size
    → get_bit128 (b.used, b.used2) i ≡ 0
    → popcount 64 b.used + popcount 64 b.used2 < b.size
ones-lt-size b i small tidy h e = elim (Bool-cases (ltb b.size 65)) [
  | inl few ↦ omega (
    arith,
    popcount-lt 64 b.size b.used i (λ j p q. omega (arith, low_bit b j q, tidy j p (omega arith))) h
        (ground arith) (omega (arith, low_bit b i (ground arith), e)),
    popcount-le 64 0 b.used2
        (λ j p q. omega (arith, high_bit b j q, tidy (j + 64) (ground arith) (omega arith))),
  )
  | inr many ↦ elim (Bool-cases (ltb i 64)) [
    | inl low ↦ omega (
      arith,
      popcount-lt 64 64 b.used i (λ j p q. absurd (omega arith)) (ground arith) (ground arith)
          (omega (arith, low_bit b i (ground arith), e)),
      popcount-le 64 (b.size - 64) b.used2
          (λ j p q. omega (arith, high_bit b j q, tidy (j + 64) (omega arith) (omega arith))),
      size_above b many,
    )
    | inr high ↦ omega (
      arith,
      popcount-le 64 64 b.used (λ j p q. absurd (omega arith)),
      popcount-lt 64 (b.size - 64) b.used2 (i - 64)
          (λ j p q. omega (arith, high_bit b j q, tidy (j + 64) (omega arith) (omega arith)))
          (ground arith) (ground arith)
          (high_bit b (i - 64) (ground arith)
            ∙ ap (get_bit128 (b.used, b.used2)) (ground arith)
            ∙ e),
      size_above b many,
    )
  ]
]

found_clear :
    (b : PageBlock) (n a k : ℕ)
    → find_clear b n a ≡ some k
    → (a ≤ k) × (k < a + n) × (get_bit128 (b.used, b.used2) k ≡ 0)
unfolding find_clear
found_clear b zero a k h = cc
found_clear b (suc n) a k h = ground (arith, found_clear b n (a + 1) k)

finds_clear :
    (b : PageBlock) (n a k : ℕ)
    → a ≤ k
    → k < a + n
    → get_bit128 (b.used, b.used2) k ≡ 0
    → find_clear b n a ≢ none
unfolding find_clear
finds_clear b zero a k p q e = absurd (omega arith)
finds_clear b (suc n) a k p q e = ground (arith, finds_clear b n (a + 1) k)

-- What `usePage` does when it returns a page.
pub record Given (t : Table) (p : ℕ) (t' : Table) : Type 0 where
  pub of_table : InTable p t
  pub aligned : p % 4096 ≡ 0
  pub was_free : is_page_used t p ≡ false
  pub marked : t' ≡ set_page_used_bit p true t

place : (b : PageBlock) (a : ℕ) → IsBlock b → a < b.size → Holds b (add32 b.start (mul32 4096 a))
place b a valid h = omega arith

offset_of :
    (b : PageBlock) (a : ℕ)
    → IsBlock b
    → a < b.size
    → page_offset b (add32 b.start (mul32 4096 a)) ≡ a
offset_of b a valid h =
    omega (arith, page_offset_lem (add32 b.start (mul32 4096 a)) valid (place b a valid h))

use_page-head :
    (b : PageBlock) (t : Table) (a : ℕ)
    → IsTable (b ∷ t)
    → a < b.size
    → get_bit128 (b.used, b.used2) a ≡ 0
    → Given
        (b ∷ t)
        (add32 b.start (mul32 4096 a))
        (used_map.put b (set_bit128 (used_map.get b) a true) ∷ t)
unfolding is_page_used set_page_used_bit write_flags read_flag
use_page-head b t a valid h e =
    let p = add32 b.start (mul32 4096 a) in
    let held : Holds b p = place b a valid.0 h in
    let off : page_offset b p ≡ a = offset_of b a valid.0 h in
    record {
      of_table = inl held;
      aligned = omega (arith, valid.0.aligned, valid.0.fits, valid.0.small);
      was_free = rw (in_block-Holds p valid.0 held, off, e);
      marked = rw (
        in_block-Holds p valid.0 held,
        off,
        write_flags-apart used_map-IsBitmap true p b t valid.0 valid.1 valid.2 held,
      );
    }

use_page-tail :
    (b : PageBlock) (t t' : Table) (p : ℕ)
    → IsTable (b ∷ t)
    → Given t p t'
    → Given (b ∷ t) p (b ∷ t')
unfolding is_page_used set_page_used_bit write_flags read_flag
use_page-tail b t t' p valid g =
    let out = not-in_block_table p t valid.0 valid.1 valid.2 g.of_table in
    record {
      of_table = inr g.of_table;
      aligned = g.aligned;
      was_free = rw out g.was_free;
      marked = rw (out, g.marked);
    }

later :
    (b : PageBlock) (t t' : Table) (p : ℕ) (r : Option (ℕ × Table))
    → IsTable (b ∷ t)
    → ((t'' : Table) → r ≡ some (p, t'') → Given t p t'')
    → Option.map (behind b) r ≡ some (p, t')
    → Given (b ∷ t) p t'
unfolding behind
later b t t' p none valid ih h = absurd (let k : ⊥ = cc in k)
later b t t' p (some (q, t'')) valid ih h =
    let e : behind b (q, t'') ≡ (p, t') = some-injective _ _ h in
    subst (λ (r : ℕ × Table). Given (b ∷ t) r.0 r.1) e
      (use_page-tail b t t'' q valid (
        subst (λ x. Given t x t'') (sym (ap (λ (r : ℕ × Table). r.0) e))
          (ih t'' (ap (λ x. some (x, t'')) (ap (λ (r : ℕ × Table). r.0) e)))))

here :
    (b : PageBlock) (t t' : Table) (p a : ℕ)
    → IsTable (b ∷ t)
    → find_clear b b.size 0 ≡ some a
    → some (take_page b a t) ≡ some (p, t')
    → Given (b ∷ t) p t'
unfolding take_page
here b t t' p a valid e h =
    let f = found_clear b b.size 0 a e in
    subst (λ (r : ℕ × Table). Given (b ∷ t) r.0 r.1) (some-injective _ _ h)
      (use_page-head b t a valid (omega (arith, f.1)) f.2)

-- In a valid table, a page that `usePage` returns is an aligned page of some block that was not
-- used, and the table that it leaves is the one in which exactly that page's used bit was set.
pub use_page-Given : (t t' : Table) (p : ℕ) → IsTable t → use_page t ≡ some (p, t') → Given t p t'
unfolding use_page
use_page-Given [] t' p valid h = cc
use_page-Given (b ∷ t) t' p valid h =
    elim (Bool-cases (ltb (popcount 64 b.used + popcount 64 b.used2) b.size)) [
      | inl room ↦ elim (Option-cases (find_clear b b.size 0)) [
        | inl e ↦
            later b t t' p (use_page t) valid (λ t'' g. use_page-Given t t'' p valid.2 g)
              (rw (room, e) at h)
        | inr (a, e) ↦ here b t t' p a valid e (rw (room, e) at h)
      ]
      | inr full ↦
          later b t t' p (use_page t) valid (λ t'' g. use_page-Given t t'' p valid.2 g)
            (rw full at h)
    ]

-- In a valid table whose blocks have no bits set behind their last page, `usePage` returns a page
-- whenever some page of some block is not used.
pub use_page-ne-none :
    (t : Table) (p : ℕ)
    → IsTable t
    → Tidy t
    → InTable p t
    → is_page_used t p ≡ false
    → use_page t ≢ none
unfolding use_page is_page_used read_flag
use_page-ne-none [] p valid tidy h free = absurd h
use_page-ne-none (b ∷ t) p valid tidy (inl h) free =
    let off = page_offset_lem p valid.0 h in
    let clear : get_bit128 (b.used, b.used2) (page_offset b p) ≡ 0 =
      ground (
        arith,
        in_block-Holds p valid.0 h,
        get_bit128-le-one (b.used, b.used2) (page_offset b p),
      ) in
    rw (lt→ltb _ _ (ones-lt-size b (page_offset b p) valid.0.small tidy.0 off.1 clear))
      (ground (arith, finds_clear b b.size 0 (page_offset b p)))
use_page-ne-none (b ∷ t) p valid tidy (inr h) free =
    let out = not-in_block_table p t valid.0 valid.1 valid.2 h in
    ground (arith, use_page-ne-none t p valid.2 tidy.1 h (rw out at free))
