-- ===== src/Physical.antt =====
-- The physical memory manager, kernel/memory/physical_MM.c.
-- `pages[0..blockindex)` is a list, so `blockindex` is its length; the entries behind it are never
-- read. Addresses are 32-bit numbers, `NULL` is 0, and pointer arithmetic wraps.
pub mod Words
pub mod Valid
pub mod Flags
pub mod Blocks
pub mod UsePage
pub mod Consecutive
mod Tests
use mathlib.Core.Option
use osext.Common.{
  ℕ, zero, suc, ◌+◌, ◌-◌, ◌*◌, ◌/◌, ◌%◌, ◌^◌, Bool, true, false, not, ◌&&◌, Option, none, some,
  List, [], ◌∷◌, ◌++◌, bit_and, bit_or, ltb, leb, ◌==◌, if◌then◌else◌, length,
}
use osext.Common.Words.{add32, sub32, mul32}
use osext.Common.Bits.{popcount}

-- `struct pageblock`. The pairs of 64-bit words hold one bit per page.
pub record PageBlock : Type 0 where
  pub unaligned : ℕ
  pub start : ℕ
  pub size : ℕ
  pub used : ℕ
  pub used2 : ℕ
  pub dirty : ℕ
  pub dirty2 : ℕ
  pub pageout : ℕ
  pub pageout2 : ℕ

abbrev pub Table : Type 0
Table = List PageBlock

abbrev pub small_page_size : ℕ
small_page_size = 4096

abbrev pub max_pageblocks : ℕ
max_pageblocks = 200

-- `p & ~0xFFFF` and `p & ~0xFFF` are written as division.
unfoldable pub make_large_page_aligned : ℕ → ℕ
make_large_page_aligned p =
    if p / 0x10000 * 0x10000 == p then p else add32 (p / 0x10000 * 0x10000) 0x10000

unfoldable pub make_small_page_aligned : ℕ → ℕ
make_small_page_aligned p =
    if p / 0x1000 * 0x1000 == p then p else add32 (p / 0x1000 * 0x1000) 0x1000

-- `none` is the return value `false`.
unfoldable pub add_page_block : PageBlock → Table → Option Table
add_page_block b t = if leb (max_pageblocks - 4) (length t) then none else some (t ++ b ∷ [])

-- The first entry with the same `unaligned` goes, and those behind it move down.
unfoldable pub remove_pageblock : PageBlock → Table → Table
remove_pageblock block [] = []
remove_pageblock block (b ∷ t) =
    if b.unaligned == block.unaligned then t else b ∷ remove_pageblock block t

unfoldable pub fresh_block : ℕ → ℕ → PageBlock
fresh_block unaligned size = record {
  unaligned = unaligned;
  start = make_small_page_aligned unaligned;
  size = size;
  used = 0;
  used2 = 0;
  dirty = 0;
  dirty2 = 0;
  pageout = 0;
  pageout2 = 0;
}

-- What a call leaves behind: its return value, the table, and the addresses given to `ti_free`.
pub record Outcome : Type 0 where
  pub done : Bool
  pub table : Table
  pub freed : List ℕ

-- `allocPageblock` once `ti_malloc` has answered with `unaligned`.
unfoldable pub alloc_with : ℕ → ℕ → Table → Outcome
unfolding add_page_block fresh_block
alloc_with unaligned size t =
    if unaligned == 0
    then record { done = false; table = t; freed = [] }
    else elim (add_page_block (fresh_block unaligned size) t) [
      | none ↦ record { done = false; table = t; freed = unaligned ∷ [] }
      | some t' ↦ record { done = true; table = t'; freed = [] }
    ]

-- `ti_malloc` takes the number of bytes, and returns an address or 0.
unfoldable pub alloc_pageblock : (ti_malloc : ℕ → ℕ) → ℕ → Table → Outcome
alloc_pageblock ti_malloc size t =
    if ltb 128 size
    then record { done = false; table = t; freed = [] }
    else alloc_with (ti_malloc (mul32 small_page_size (size + 3))) size t

free_pageblock : PageBlock → Table → List ℕ → Table × List ℕ
unfolding remove_pageblock
free_pageblock block t freed = (remove_pageblock block t, freed ++ block.unaligned ∷ [])

-- `while (blockindex != 0) freePageblock(pages[0]);` with fuel; `none` means that it ran out.
free_all_loop : ℕ → Table → List ℕ → Option (List ℕ)
free_all_loop n [] freed = some freed
free_all_loop zero (b ∷ t) freed = none
free_all_loop (suc n) (b ∷ t) freed =
    let r = free_pageblock b (b ∷ t) freed in free_all_loop n r.0 r.1

unfoldable pub free_all_pageblocks : Table → Option (List ℕ)
unfolding free_all_loop free_pageblock
free_all_pageblocks t = free_all_loop (length t) t []

-- `(uint64_t) 1 << i`; a shift by 64 or more is undefined in C, and gives 0 here.
unfoldable pub one_shl : ℕ → ℕ
one_shl i = 2 ^ i % 2 ^ 64

-- `*p | (1 << i)` and `*p & ~(1 << i)`
unfoldable pub write_bit : ℕ → ℕ → Bool → ℕ
unfolding one_shl
write_bit p i true = bit_or p (one_shl i)
write_bit p i false = bit_and p (2 ^ 64 - 1 - one_shl i)

unfoldable pub set_bit128 : ℕ × ℕ → ℕ → Bool → ℕ × ℕ
unfolding write_bit
set_bit128 (a, b) i value =
    if ltb i 64 then (write_bit a i value, b) else (a, write_bit b (i - 64) value)

unfoldable pub get_bit128 : ℕ × ℕ → ℕ → ℕ
get_bit128 (a, b) i = if ltb i 64 then bit_and (a / 2 ^ i) 1 else bit_and (b / 2 ^ (i - 64)) 1

-- `page >= b->start && page <= b->start+SMALL_PAGE_SIZE*b->size`
unfoldable pub in_block : PageBlock → ℕ → Bool
in_block b page = leb b.start page && leb page (add32 b.start (mul32 small_page_size b.size))

unfoldable pub page_offset : PageBlock → ℕ → ℕ
page_offset b page = sub32 page b.start / small_page_size

-- The source writes the code of the three bitmaps out three times; here a bitmap is its pair of
-- words.
pub record Bitmap : Type 0 where
  pub get : PageBlock → ℕ × ℕ
  pub put : PageBlock → ℕ × ℕ → PageBlock

abbrev pub used_map : Bitmap
used_map = record {
  get = λ b. (b.used, b.used2);
  put = λ b w. record b { used = w.0; used2 = w.1 };
}

abbrev pub dirty_map : Bitmap
dirty_map = record {
  get = λ b. (b.dirty, b.dirty2);
  put = λ b w. record b { dirty = w.0; dirty2 = w.1 };
}

abbrev pub pageout_map : Bitmap
pageout_map = record {
  get = λ b. (b.pageout, b.pageout2);
  put = λ b w. record b { pageout = w.0; pageout2 = w.1 };
}

-- Every block that the test admits is written.
unfoldable pub write_flags : Bitmap → ℕ → Bool → Table → Table
write_flags m page v [] = []
write_flags m page v (b ∷ t) =
    (if in_block b page then m.put b (set_bit128 (m.get b) (page_offset b page) v) else b)
    ∷ write_flags m page v t

-- The first block that the test admits decides; `missing` is the answer where none does.
unfoldable pub read_flag : Bitmap → Bool → Table → ℕ → Bool
read_flag m missing [] page = missing
read_flag m missing (b ∷ t) page =
    if in_block b page
    then get_bit128 (m.get b) (page_offset b page) == 1
    else read_flag m missing t page

unfoldable pub set_page_used_bit : ℕ → Bool → Table → Table
unfolding write_flags
set_page_used_bit page v t = write_flags used_map page v t

unfoldable pub is_page_used : Table → ℕ → Bool
unfolding read_flag
is_page_used t page = read_flag used_map true t page

unfoldable pub is_page_dirty : Table → ℕ → Bool
unfolding read_flag
is_page_dirty t page = read_flag dirty_map false t page

unfoldable pub set_page_dirty_bit : ℕ → Bool → Table → Table
unfolding write_flags
set_page_dirty_bit page v t = write_flags dirty_map page v t

unfoldable pub is_paged_out : Table → ℕ → Bool
unfolding read_flag
is_paged_out t page = read_flag pageout_map false t page

unfoldable pub set_paged_out_bit : ℕ → Bool → Table → Table
unfolding write_flags
set_paged_out_bit page v t = write_flags pageout_map page v t

-- The search of `usePage` for a clear bit: `n` rounds are left, from page `a` on.
unfoldable pub find_clear : PageBlock → ℕ → ℕ → Option ℕ
find_clear b zero a = none
find_clear b (suc n) a =
    let rest = find_clear b n (a + 1) in if get_bit128 (used_map.get b) a == 0 then some a else rest

-- The page `a` of the block is marked and returned.
unfoldable pub take_page : PageBlock → ℕ → Table → ℕ × Table
take_page b a t = (
  add32 b.start (mul32 small_page_size a),
  used_map.put b (set_bit128 (used_map.get b) a true) ∷ t,
)

-- The result of the loop's later rounds, in the table with `b` in front.
unfoldable pub behind : PageBlock → ℕ × Table → ℕ × Table
behind b (page, t) = (page, b ∷ t)

-- `none` is the return value `NULL`.
unfoldable pub use_page : Table → Option (ℕ × Table)
unfolding take_page behind
use_page [] = none
use_page (b ∷ t) =
    let rest = Option.map (behind b) (use_page t) in
    if ltb (popcount 64 b.used + popcount 64 b.used2) b.size
    then elim (find_clear b b.size 0) [ some a ↦ some (take_page b a t) | none ↦ rest ]
    else rest

-- `page + SMALL_PAGE_SIZE * k`
unfoldable pub page_at : ℕ → ℕ → ℕ
page_at page k = add32 page (mul32 small_page_size k)

-- The loop over `b` that looks for a used page: `n` rounds are left.
unfoldable pub run_is_free : Table → ℕ → ℕ → ℕ → Bool
run_is_free t page k zero = true
run_is_free t page k (suc n) =
    let rest = run_is_free t page (k + 1) n in
    if is_page_used t (page_at page k) then false else rest

unfoldable pub mark_run : Bool → ℕ → ℕ → ℕ → Table → Table
mark_run v page k zero t = t
mark_run v page k (suc n) t = mark_run v page (k + 1) n (set_page_used_bit (page_at page k) v t)

-- The loop over the pages of one block. For `alignment` 0 the remainder is undefined in C.
unfoldable pub find_run_in : Table → ℕ → ℕ → ℕ → ℕ → Option ℕ
find_run_in t size alignment zero page = none
find_run_in t size alignment (suc n) page =
    let rest = find_run_in t size alignment n (add32 page small_page_size) in
    if (page % alignment == 0) && run_is_free t page 0 size then some page else rest

unfoldable pub find_run : Table → Table → ℕ → ℕ → Option ℕ
find_run t [] size alignment = none
find_run t (b ∷ bs) size alignment = elim (find_run_in t size alignment b.size b.start) [
  | some page ↦ some page
  | none ↦ find_run t bs size alignment
]

unfoldable pub use_run : ℕ → Table → ℕ → ℕ × Table
use_run size t page = (page, mark_run true page 0 size t)

unfoldable pub use_consecutive_pages : ℕ → ℕ → Table → Option (ℕ × Table)
unfolding use_run
use_consecutive_pages size alignment t = Option.map (use_run size t) (find_run t t size alignment)

unfoldable pub free_consecutive_pages : ℕ → ℕ → Table → Table
free_consecutive_pages page size t = mark_run false page 0 size t
