-- ===== src/Physical/Tests.antt =====
-- The memory manager on concrete tables.
use osext.Common.{
  ℕ, ◌-◌, false, ltb, ◌≡◌, refl, ◌≢◌, arith, ◌∙◌, inl, inr, Bool-cases, [], ◌∷◌, none, some,
}
use osext.Physical.{
  PageBlock, Table, use_page, use_consecutive_pages, free_consecutive_pages, is_page_used,
  set_page_used_bit, find_clear, find_run, find_run_in, in_block, page_offset, page_at, set_bit128,
  get_bit128, remove_pageblock, run_is_free, mark_run,
}
use osext.Common.Bits.{popcount, bit_of_pow, bit-of_zero}
use osext.Physical.Words.{bit128, get_bit128-bit128}
use osext.Physical.Valid.{IsTable}
use osext.Physical.UsePage.{Given, use_page-Given, use_page-ne-none, Tidy}
use osext.Physical.Consecutive.{
  GivenRun, use_consecutive_pages-GivenRun, free-use_consecutive_pages,
}

abbrev first : PageBlock
first = record {
  unaligned = 0x10000800;
  start = 0x10001000;
  size = 3;
  used = 1;
  used2 = 0;
  dirty = 0;
  dirty2 = 0;
  pageout = 0;
  pageout2 = 0;
}

abbrev table : Table
table = first ∷ []

table-IsTable : IsTable table
table-IsTable = omega arith

table_after : use_page table ≡ some (0x10002000, record first { used = 3 } ∷ [])
unfolding use_page find_clear get_bit128 set_bit128 popcount
table_after = refl

run_after : use_consecutive_pages 2 0x2000 table ≡ some (0x10002000, record first { used = 7 } ∷ [])
unfolding use_consecutive_pages find_run find_run_in run_is_free mark_run is_page_used in_block
    page_offset get_bit128 set_bit128 set_page_used_bit page_at
run_after = refl

-- A block of three pages gives a run of four: the last is not its own.
run_beyond_block :
    use_consecutive_pages 4 1 (record first { used = 0 } ∷ [])
    ≡ some (0x10001000, record first { used = 15 } ∷ [])
unfolding use_consecutive_pages find_run find_run_in run_is_free mark_run is_page_used in_block
    page_offset get_bit128 set_bit128 set_page_used_bit page_at
run_beyond_block = refl

removed :
    remove_pageblock first (record first { unaligned = 4096 } ∷ first ∷ [])
    ≡ record first { unaligned = 4096 } ∷ []
unfolding remove_pageblock
removed = refl

use_page-Given_example : Given table 0x10002000 (record first { used = 3 } ∷ [])
use_page-Given_example =
    use_page-Given table (record first { used = 3 } ∷ []) 0x10002000 (omega arith) table_after

table-Tidy : Tidy table
unfolding bit128
table-Tidy = (
  (λ i p q. rw get_bit128-bit128 (elim (Bool-cases (ltb i 64)) [
    | inl low ↦ rw low (bit_of_pow 0 i ∙ ground arith)
    | inr high ↦ rw high (bit-of_zero (i - 64))
  ])),
  tt,
)

free_page : is_page_used table 0x10003000 ≡ false
unfolding is_page_used in_block page_offset get_bit128
free_page = refl

use_page-ne-none_example : use_page table ≢ none
use_page-ne-none_example =
    use_page-ne-none table 0x10003000 (omega arith) table-Tidy (omega arith) free_page

use_consecutive_pages-GivenRun_example :
    GivenRun table 2 0x2000 0x10002000 (record first { used = 7 } ∷ [])
use_consecutive_pages-GivenRun_example =
    use_consecutive_pages-GivenRun table (record first { used = 7 } ∷ []) 2 0x2000 0x10002000
      (omega arith) run_after

free-use_consecutive_pages_example :
    is_page_used (free_consecutive_pages 0x10002000 2 (record first { used = 7 } ∷ [])) 0x10003000
    ≡ is_page_used table 0x10003000
free-use_consecutive_pages_example =
    free-use_consecutive_pages table (record first { used = 7 } ∷ []) 2 0x2000 0x10002000 0x10003000
      (omega arith) run_after (omega arith) (omega arith)

abbrev malloc : ℕ → ℕ
malloc bytes = 0x20000010
