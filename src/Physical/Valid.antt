-- ===== src/Physical/Valid.antt =====
-- What a page table of the memory manager satisfies, and what is in which block.
use osext.Common.{
  ℕ, ◌+◌, ◌-◌, ◌*◌, ◌/◌, ◌%◌, ◌^◌, ◌≤◌, ◌<◌, true, false, leb, ◌&&◌, ◌≡◌, refl, arith, ap, ◌⊎◌, inl,
  inr, [], ◌∷◌,
}
use osext.Physical.{
  PageBlock, Table, Bitmap, in_block, page_offset, used_map, dirty_map, pageout_map,
}
use osext.Physical.Words.{IsPair}

-- A block lies, page aligned, in the memory that `ti_malloc` gave for it, short of the end of the
-- address space.
pub record IsBlock (b : PageBlock) : Type 0 where
  pub aligned : b.start % 4096 ≡ 0
  pub after : b.unaligned ≤ b.start
  pub near : b.start < b.unaligned + 4096
  pub fits : b.unaligned + 4096 * (b.size + 3) ≤ 2 ^ 32
  pub small : b.size ≤ 128
  pub used_words : IsPair (b.used, b.used2)
  pub dirty_words : IsPair (b.dirty, b.dirty2)
  pub pageout_words : IsPair (b.pageout, b.pageout2)

-- Two blocks have memory of their own.
abbrev pub Separate : PageBlock → PageBlock → Type 0
Separate b c =
    (b.unaligned + 4096 * (b.size + 3) ≤ c.unaligned)
    ⊎ (c.unaligned + 4096 * (c.size + 3) ≤ b.unaligned)

abbrev pub SeparateAll : PageBlock → Table → Type 0
SeparateAll b [] = Unit
SeparateAll b (c ∷ t) = Separate b c × SeparateAll b t

abbrev pub IsTable : Table → Type 0
IsTable [] = Unit
IsTable (b ∷ t) = IsBlock b × SeparateAll b t × IsTable t

-- The page at `p` is one of the block's pages.
abbrev pub Holds : PageBlock → ℕ → Type 0
Holds b p = (b.start ≤ p) × (p < b.start + 4096 * b.size)

abbrev pub InTable : ℕ → Table → Type 0
InTable p [] = ⊥
InTable p (b ∷ t) = Holds b p ⊎ InTable p t

pub in_block_lem :
    {b : PageBlock} (p : ℕ)
    → IsBlock b
    → in_block b p ≡ (leb b.start p && leb p (b.start + 4096 * b.size))
unfolding in_block
in_block_lem {b} p v = ap (λ t. leb b.start p && leb p t) (omega arith)

pub in_block-Holds : {b : PageBlock} (p : ℕ) → IsBlock b → Holds b p → in_block b p ≡ true
in_block-Holds {b} p v h = ground (arith, in_block_lem p v)

pub page_offset_lem :
    {b : PageBlock} (p : ℕ)
    → IsBlock b
    → Holds b p
    → (page_offset b p ≡ (p - b.start) / 4096) × (page_offset b p < b.size)
unfolding page_offset
page_offset_lem p v h = omega arith

-- The test also admits the address behind the last page.
pub page_offset_admitted :
    {b : PageBlock} (p : ℕ)
    → IsBlock b
    → in_block b p ≡ true
    → (page_offset b p ≡ (p - b.start) / 4096)
      × (page_offset b p ≤ b.size)
      × (b.start ≤ p)
      × (p ≤ b.start + 4096 * b.size)
unfolding page_offset
page_offset_admitted {b} p v h =
    let range : (b.start ≤ p) × (p ≤ b.start + 4096 * b.size) = ground (arith, in_block_lem p v) in
    omega (arith, range, v.fits, v.near)

-- The test of one block never admits a page of another.
pub not-in_block :
    {b c : PageBlock} (p : ℕ)
    → IsBlock b
    → IsBlock c
    → Separate b c
    → Holds c p
    → in_block b p ≡ false
not-in_block p v w s h = ground (arith, in_block_lem p v)

pub not-in_block_table :
    {b : PageBlock} (p : ℕ) (t : Table)
    → IsBlock b
    → SeparateAll b t
    → IsTable t
    → InTable p t
    → in_block b p ≡ false
not-in_block_table p [] v s w h = absurd h
not-in_block_table p (c ∷ t) v s w (inl h) = not-in_block p v w.0 s.0 h
not-in_block_table p (c ∷ t) v s w (inr h) = not-in_block_table p t v s.1 w.2 h

-- What the three bitmaps have in common.
pub record IsBitmap (m : Bitmap) : Type 0 where
  pub get-put : (b : PageBlock) (w : ℕ × ℕ) → m.get (m.put b w) ≡ w
  pub unaligned-put : (b : PageBlock) (w : ℕ × ℕ) → (m.put b w).unaligned ≡ b.unaligned
  pub start-put : (b : PageBlock) (w : ℕ × ℕ) → (m.put b w).start ≡ b.start
  pub size-put : (b : PageBlock) (w : ℕ × ℕ) → (m.put b w).size ≡ b.size
  pub words : (b : PageBlock) → IsBlock b → IsPair (m.get b)
  pub put-IsBlock : (b : PageBlock) (w : ℕ × ℕ) → IsBlock b → IsPair w → IsBlock (m.put b w)

pub used_map-IsBitmap : IsBitmap used_map
used_map-IsBitmap = record {
  get-put = λ b w. refl;
  unaligned-put = λ b w. refl;
  start-put = λ b w. refl;
  size-put = λ b w. refl;
  words = λ b v. v.used_words;
  put-IsBlock = λ b w v h. omega arith;
}

pub dirty_map-IsBitmap : IsBitmap dirty_map
dirty_map-IsBitmap = record {
  get-put = λ b w. refl;
  unaligned-put = λ b w. refl;
  start-put = λ b w. refl;
  size-put = λ b w. refl;
  words = λ b v. v.dirty_words;
  put-IsBlock = λ b w v h. omega arith;
}

pub pageout_map-IsBitmap : IsBitmap pageout_map
pageout_map-IsBitmap = record {
  get-put = λ b w. refl;
  unaligned-put = λ b w. refl;
  start-put = λ b w. refl;
  size-put = λ b w. refl;
  words = λ b v. v.pageout_words;
  put-IsBlock = λ b w v h. omega arith;
}
