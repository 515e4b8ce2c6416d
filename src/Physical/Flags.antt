-- ===== src/Physical/Flags.antt =====
-- Reading and writing the used, dirty and paged-out bits of a page.
use osext.Common.{
  ℕ, ◌%◌, Bool, true, false, ◌==◌, if◌then◌else◌, ◌≡◌, refl, arith, inl, inr, Bool-cases, [], ◌∷◌,
}
use osext.Physical.{
  PageBlock, Table, Bitmap, in_block, page_offset, write_flags, read_flag, set_bit128, get_bit128,
  is_page_used, set_page_used_bit, is_page_dirty, set_page_dirty_bit, is_paged_out,
  set_paged_out_bit,
}
use osext.Physical.Words.{flag, get_bit128-set_bit128, set_bit128-IsPair}
use osext.Physical.Valid.{
  IsBlock, IsTable, Separate, SeparateAll, Holds, InTable, IsBitmap, in_block-Holds,
  page_offset_lem, page_offset_admitted, not-in_block_table, not-in_block, used_map-IsBitmap,
  dirty_map-IsBitmap, pageout_map-IsBitmap,
}

flag_test : (v : Bool) → (flag v == 1) ≡ v
flag_test true = refl
flag_test false = refl

swap : (b c : PageBlock) → Separate b c → Separate c b
swap b c (inl h) = inr h
swap b c (inr h) = inl h

module _ {m : Bitmap} (law : IsBitmap m) where
  in_block-put : (b : PageBlock) (w : ℕ × ℕ) (p : ℕ) → in_block (m.put b w) p ≡ in_block b p
  unfolding in_block
  in_block-put b w p = cc (law.start-put b w, law.size-put b w)

  page_offset-put :
      (b : PageBlock) (w : ℕ × ℕ) (p : ℕ) → page_offset (m.put b w) p ≡ page_offset b p
  unfolding page_offset
  page_offset-put b w p = cc (law.start-put b w)

  -- One block that holds the page that is read, and admits the page that is written.
  read_written :
      (b : PageBlock) (p q : ℕ) (v : Bool)
      → IsBlock b
      → in_block b p ≡ true
      → Holds b q
      → p % 4096 ≡ 0
      → q % 4096 ≡ 0
      → (get_bit128 (set_bit128 (m.get b) (page_offset b p) v) (page_offset b q) == 1)
        ≡ (if p == q then v else (get_bit128 (m.get b) (page_offset b q) == 1))
  read_written b p q v valid hp hq mp mq =
      let off_p = page_offset_admitted p valid hp in
      let off_q = page_offset_lem q valid hq in
      rw
        (get_bit128-set_bit128 (m.get b) (page_offset b p) (page_offset b q) v (law.words b valid)
          (omega (arith, valid.small)) (omega (arith, valid.small)))
        (ground (arith, off_p, off_q.0, valid.aligned, flag_test v))

  -- A page of one block is not written in the others.
  pub write_flags-apart :
      (v : Bool) (p : ℕ) (b : PageBlock) (t : Table)
      → IsBlock b
      → SeparateAll b t
      → IsTable t
      → Holds b p
      → write_flags m p v t ≡ t
  unfolding write_flags
  write_flags-apart v p b [] valid apart rest h = refl
  write_flags-apart v p b (c ∷ t) valid apart rest h = rw (
    not-in_block p rest.0 valid (swap b c apart.0) h,
    write_flags-apart v p b t valid apart.1 rest.2 h,
  )

  -- Whatever aligned address is written, a page of the table changes only if it is that page.
  pub write_flags-read_flag :
      (missing v : Bool) (p q : ℕ) (t : Table)
      → IsTable t
      → InTable q t
      → p % 4096 ≡ 0
      → q % 4096 ≡ 0
      → read_flag m missing (write_flags m p v t) q
        ≡ (if p == q then v else read_flag m missing t q)
  unfolding write_flags read_flag
  write_flags-read_flag missing v p q [] valid hq mp mq = absurd hq
  write_flags-read_flag missing v p q (b ∷ t) valid (inl hq) mp mq =
      let w = set_bit128 (m.get b) (page_offset b p) v in
      elim (Bool-cases (in_block b p)) [
        | inl e ↦
            rw
              (
                e,
                in_block-put b w q,
                in_block-Holds q valid.0 hq,
                page_offset-put b w q,
                law.get-put b w,
              )
              (read_written b p q v valid.0 e hq mp mq)
        | inr e ↦
            rw (e, in_block-Holds q valid.0 hq) (ground (arith, e, in_block-Holds q valid.0 hq))
      ]
  write_flags-read_flag missing v p q (b ∷ t) valid (inr hq) mp mq =
      let w = set_bit128 (m.get b) (page_offset b p) v in
      let out = not-in_block_table q t valid.0 valid.1 valid.2 hq in
      let rest = write_flags-read_flag missing v p q t valid.2 hq mp mq in
      elim (Bool-cases (in_block b p)) [
        | inl e ↦ rw (e, in_block-put b w q, out) rest
        | inr e ↦ rw (e, out) rest
      ]

  write_flags-SeparateAll :
      (v : Bool) (p : ℕ) (b c : PageBlock) (t : Table)
      → c.unaligned ≡ b.unaligned
      → c.size ≡ b.size
      → SeparateAll b t
      → SeparateAll c (write_flags m p v t)
  unfolding write_flags
  write_flags-SeparateAll v p b c [] eu es h = tt
  write_flags-SeparateAll v p b c (d ∷ t) eu es h = (
    elim (Bool-cases (in_block d p)) [
      | inl e ↦ rw e (
          omega (
            arith,
            h.0,
            law.unaligned-put d (set_bit128 (m.get d) (page_offset d p) v),
            law.size-put d (set_bit128 (m.get d) (page_offset d p) v),
          ))
      | inr e ↦ rw e (omega (arith, h.0))
    ],
    write_flags-SeparateAll v p b c t eu es h.1,
  )

  pub write_flags-IsTable :
      (v : Bool) (p : ℕ) (t : Table) → IsTable t → IsTable (write_flags m p v t)
  unfolding write_flags
  write_flags-IsTable v p [] h = tt
  write_flags-IsTable v p (b ∷ t) h =
      let w = set_bit128 (m.get b) (page_offset b p) v in
      elim (Bool-cases (in_block b p)) [
        | inl e ↦ rw e (
          law.put-IsBlock b w h.0
              (set_bit128-IsPair (m.get b) (page_offset b p) v (law.words b h.0)),
          write_flags-SeparateAll v p b (m.put b w) t (law.unaligned-put b w) (law.size-put b w)
              h.1,
          write_flags-IsTable v p t h.2,
        )
        | inr e ↦
            rw e
              (h.0, write_flags-SeparateAll v p b b t refl refl h.1, write_flags-IsTable v p t h.2)
      ]

  -- The pages of the table stay.
  pub write_flags-InTable :
      (v : Bool) (p q : ℕ) (t : Table) → InTable q t → InTable q (write_flags m p v t)
  unfolding write_flags
  write_flags-InTable v p q [] h = absurd h
  write_flags-InTable v p q (b ∷ t) (inl h) =
      let w = set_bit128 (m.get b) (page_offset b p) v in
      elim (Bool-cases (in_block b p)) [
        | inl e ↦ rw e (inl (rw (law.start-put b w, law.size-put b w) h))
        | inr e ↦ rw e (inl h)
      ]
  write_flags-InTable v p q (b ∷ t) (inr h) = inr (write_flags-InTable v p q t h)

-- In a valid table, for a page of one of its blocks: after the used, dirty or paged-out bit of any
-- page address is set to a value, the same bit of that page reads as the value if it is the page
-- at that address, and as before if it is not; and the table stays valid.
pub set-read_flags :
    (t : Table) (p q : ℕ) (v : Bool)
    → IsTable t
    → InTable q t
    → p % 4096 ≡ 0
    → q % 4096 ≡ 0
    → (is_page_used (set_page_used_bit p v t) q ≡ (if p == q then v else is_page_used t q))
      × (is_page_dirty (set_page_dirty_bit p v t) q ≡ (if p == q then v else is_page_dirty t q))
      × (is_paged_out (set_paged_out_bit p v t) q ≡ (if p == q then v else is_paged_out t q))
      × IsTable (set_page_used_bit p v t)
      × IsTable (set_page_dirty_bit p v t)
      × IsTable (set_paged_out_bit p v t)
unfolding is_page_used is_page_dirty is_paged_out set_page_used_bit set_page_dirty_bit
    set_paged_out_bit
set-read_flags t p q v valid hq mp mq = (
  write_flags-read_flag used_map-IsBitmap true v p q t valid hq mp mq,
  write_flags-read_flag dirty_map-IsBitmap false v p q t valid hq mp mq,
  write_flags-read_flag pageout_map-IsBitmap false v p q t valid hq mp mq,
  write_flags-IsTable used_map-IsBitmap v p t valid,
  write_flags-IsTable dirty_map-IsBitmap v p t valid,
  write_flags-IsTable pageout_map-IsBitmap v p t valid,
)

pub set_used-read :
    (t : Table) (p q : ℕ) (v : Bool)
    → IsTable t
    → InTable q t
    → p % 4096 ≡ 0
    → q % 4096 ≡ 0
    → is_page_used (set_page_used_bit p v t) q ≡ (if p == q then v else is_page_used t q)
set_used-read t p q v valid h mp mq = (set-read_flags t p q v valid h mp mq).0

pub set_used-IsTable :
    (p : ℕ) (v : Bool) (t : Table) → IsTable t → IsTable (set_page_used_bit p v t)
unfolding set_page_used_bit
set_used-IsTable p v t h = write_flags-IsTable used_map-IsBitmap v p t h

pub set_used-InTable :
    (p q : ℕ) (v : Bool) (t : Table) → InTable q t → InTable q (set_page_used_bit p v t)
unfolding set_page_used_bit
set_used-InTable p q v t h = write_flags-InTable used_map-IsBitmap v p q t h
