-- ===== src/Physical/Consecutive.antt =====
-- `useConsecutivePages` and `freeConsecutivePages`, and the address behind a block.
use osext.Common.{
  ℕ, zero, suc, ◌+◌, ◌*◌, ◌%◌, ◌<◌, Bool, true, false, ◌&&◌, ◌||◌, ◌==◌, if◌then◌else◌, ◌≡◌, refl,
  arith, ◌∙◌, inl, inr, Bool-cases, [], ◌∷◌, Option, none, some,
}
use osext.Common.{Option-cases}
use mathlib.Core.Option.{some-injective}
use mathlib.Core.Option
use mathlib.Core.Path.{subst}
use osext.Common.Words.{add32}
use osext.Physical.{
  PageBlock, Table, in_block, page_offset, is_page_used, set_page_used_bit, page_at, run_is_free,
  mark_run, use_run, find_run_in, find_run, use_consecutive_pages, free_consecutive_pages,
  read_flag,
}
use osext.Physical.Valid.{page_offset_admitted, not-in_block_table, IsTable, InTable, in_block_lem}
use osext.Physical.Flags.{set_used-read, set_used-IsTable, set_used-InTable}
use osext.Physical.UsePage.{TidyBlock}

-- The address is one of the `n` pages from the `k`-th page after `page` on.
abbrev pub covers : ℕ → ℕ → ℕ → ℕ → Bool
covers page k zero q = false
covers page k (suc n) q = (page_at page k == q) || covers page (k + 1) n q

page_at-aligned : (page k : ℕ) → page % 4096 ≡ 0 → page_at page k % 4096 ≡ 0
unfolding page_at
page_at-aligned page k h = omega arith

mark_run-IsTable :
    (v : Bool) (page k n : ℕ) (t : Table)
    → page % 4096 ≡ 0
    → IsTable t
    → IsTable (mark_run v page k n t)
unfolding mark_run
mark_run-IsTable v page k zero t a h = h
mark_run-IsTable v page k (suc n) t a h =
    mark_run-IsTable v page (k + 1) n (set_page_used_bit (page_at page k) v t) a
      (set_used-IsTable (page_at page k) v t h)

mark_run-InTable :
    (v : Bool) (page k n q : ℕ) (t : Table) → InTable q t → InTable q (mark_run v page k n t)
unfolding mark_run
mark_run-InTable v page k zero q t h = h
mark_run-InTable v page k (suc n) q t h =
    mark_run-InTable v page (k + 1) n q (set_page_used_bit (page_at page k) v t)
      (set_used-InTable (page_at page k) q v t h)

mark_run-is_page_used :
    (v : Bool) (page k n q : ℕ) (t : Table)
    → IsTable t
    → InTable q t
    → page % 4096 ≡ 0
    → q % 4096 ≡ 0
    → is_page_used (mark_run v page k n t) q ≡ (if covers page k n q then v else is_page_used t q)
unfolding mark_run
mark_run-is_page_used v page k zero q t valid h a aq = refl
mark_run-is_page_used v page k (suc n) q t valid h a aq =
    let p = page_at page k in
    ground (
      arith,
      mark_run-is_page_used v page (k + 1) n q (set_page_used_bit p v t)
          (set_used-IsTable p v t valid) (set_used-InTable p q v t h) a aq,
      set_used-read t p q v valid h (page_at-aligned page k a) aq,
    )

-- Pages that are given back, in a valid table.
pub free_consecutive_pages-is_page_used :
    (page size q : ℕ) (t : Table)
    → IsTable t
    → InTable q t
    → page % 4096 ≡ 0
    → q % 4096 ≡ 0
    → is_page_used (free_consecutive_pages page size t) q
      ≡ (if covers page 0 size q then false else is_page_used t q)
unfolding free_consecutive_pages
free_consecutive_pages-is_page_used page size q t valid i a b =
    mark_run-is_page_used false page 0 size q t valid i a b

pub free_consecutive_pages-IsTable :
    (page size : ℕ) (t : Table)
    → IsTable t
    → page % 4096 ≡ 0
    → IsTable (free_consecutive_pages page size t)
unfolding free_consecutive_pages
free_consecutive_pages-IsTable page size t valid a = mark_run-IsTable false page 0 size t a valid

pub free_consecutive_pages-InTable :
    (page size q : ℕ) (t : Table) → InTable q t → InTable q (free_consecutive_pages page size t)
unfolding free_consecutive_pages
free_consecutive_pages-InTable page size q t i = mark_run-InTable false page 0 size q t i

-- The pages of the run were not used.
run_is_free-covers :
    (t : Table) (page k n q : ℕ)
    → run_is_free t page k n ≡ true
    → covers page k n q ≡ true
    → is_page_used t q ≡ false
unfolding run_is_free
run_is_free-covers t page k zero q h c = absurd (let x : ⊥ = cc in x)
run_is_free-covers t page k (suc n) q h c = ground (arith, run_is_free-covers t page (k + 1) n q)

-- A run that the search finds.
abbrev IsRun : Table → ℕ → ℕ → ℕ → Type 0
IsRun t size alignment p = (p % 4096 ≡ 0) × (p % alignment ≡ 0) × (run_is_free t p 0 size ≡ true)

find_run_in-IsRun :
    (t : Table) (size alignment n page p : ℕ)
    → page % 4096 ≡ 0
    → find_run_in t size alignment n page ≡ some p
    → IsRun t size alignment p
unfolding find_run_in
find_run_in-IsRun t size alignment zero page p a h = absurd (let x : ⊥ = cc in x)
find_run_in-IsRun t size alignment (suc n) page p a h =
    elim (Bool-cases ((page % alignment == 0) && run_is_free t page 0 size)) [
      | inl e ↦ ground arith
      | inr e ↦ find_run_in-IsRun t size alignment n (add32 page 4096) p (omega arith) (rw e at h)
    ]

find_run-IsRun :
    (t bs : Table) (size alignment p : ℕ)
    → IsTable bs
    → find_run t bs size alignment ≡ some p
    → IsRun t size alignment p
unfolding find_run
find_run-IsRun t [] size alignment p valid h = absurd (let x : ⊥ = cc in x)
find_run-IsRun t (b ∷ bs) size alignment p valid h =
    elim (Option-cases (find_run_in t size alignment b.size b.start)) [
      | inl e ↦ find_run-IsRun t bs size alignment p valid.2 (rw (e, find_run) at h)
      | inr (q, e) ↦
          find_run_in-IsRun t size alignment b.size b.start p valid.0.aligned
            (e ∙ (rw (e, find_run) at h))
    ]

-- What `useConsecutivePages` does when it returns an address.
pub record GivenRun (t : Table) (size alignment p : ℕ) (t' : Table) : Type 0 where
  pub page_aligned : p % 4096 ≡ 0
  pub aligned : p % alignment ≡ 0
  pub were_free : (q : ℕ) → covers p 0 size q ≡ true → is_page_used t q ≡ false
  pub marked :
      (q : ℕ)
      → InTable q t
      → q % 4096 ≡ 0
      → is_page_used t' q ≡ (if covers p 0 size q then true else is_page_used t q)
  pub of_table : (q : ℕ) → InTable q t → InTable q t'
  pub valid : IsTable t'

given_run :
    (t t' : Table) (size alignment p : ℕ) (r : Option ℕ)
    → IsTable t
    → ((q : ℕ) → r ≡ some q → IsRun t size alignment q)
    → Option.map (use_run size t) r ≡ some (p, t')
    → GivenRun t size alignment p t'
unfolding use_run
given_run t t' size alignment p none valid found h = absurd (let x : ⊥ = cc in x)
given_run t t' size alignment p (some q) valid found h =
    let run = found q refl in
    subst (λ (r : ℕ × Table). GivenRun t size alignment r.0 r.1) (some-injective _ _ h)
      (record {
        page_aligned = run.0;
        aligned = run.1;
        were_free = λ r c. run_is_free-covers t q 0 size r run.2 c;
        marked = λ r i a. mark_run-is_page_used true q 0 size r t valid i run.0 a;
        of_table = λ r i. mark_run-InTable true q 0 size r t i;
        valid = mark_run-IsTable true q 0 size t run.0 valid;
      })

-- In a valid table, when `useConsecutivePages` returns an address: it is a multiple of the page
-- size and of the alignment; none of the `size` pages from it on was used; then those pages of the
-- table's blocks that are among them read as used, all others read as before; and the table is
-- valid.
pub use_consecutive_pages-GivenRun :
    (t t' : Table) (size alignment p : ℕ)
    → IsTable t
    → use_consecutive_pages size alignment t ≡ some (p, t')
    → GivenRun t size alignment p t'
unfolding use_consecutive_pages
use_consecutive_pages-GivenRun t t' size alignment p valid h =
    given_run t t' size alignment p (find_run t t size alignment) valid
      (λ q e. find_run-IsRun t t size alignment q valid e) h

-- In a valid table, `freeConsecutivePages` with the same size undoes `useConsecutivePages`: each
-- page of the table's blocks reads as before.
pub free-use_consecutive_pages :
    (t t' : Table) (size alignment p q : ℕ)
    → IsTable t
    → use_consecutive_pages size alignment t ≡ some (p, t')
    → InTable q t
    → q % 4096 ≡ 0
    → is_page_used (free_consecutive_pages p size t') q ≡ is_page_used t q
unfolding free_consecutive_pages
free-use_consecutive_pages t t' size alignment p q valid h i a =
    let g = use_consecutive_pages-GivenRun t t' size alignment p valid h in
    ground (
      arith,
      mark_run-is_page_used false p 0 size q t' g.valid (g.of_table q i) g.page_aligned a,
      g.marked q i a,
      g.were_free q,
    )

-- In a valid table, the address just behind the last page of the first block, of less than 128
-- pages with no bits set behind the last one, is not a page of any block and reads as not used.
pub end_of_block_reads_free :
    (b : PageBlock) (t : Table)
    → IsTable (b ∷ t)
    → TidyBlock b
    → b.size < 128
    → (¬ InTable (b.start + 4096 * b.size) (b ∷ t))
      × (is_page_used (b ∷ t) (b.start + 4096 * b.size) ≡ false)
unfolding is_page_used read_flag
end_of_block_reads_free b t valid tidy small =
    let p = b.start + 4096 * b.size in
    let e : in_block b p ≡ true = ground (arith, in_block_lem p valid.0) in
    let not_there : ¬ InTable p (b ∷ t) = elim [
      | inl i ↦ omega (arith, i)
      | inr i ↦ let out = not-in_block_table p t valid.0 valid.1 valid.2 i in cc
    ] in
    let off : page_offset b p ≡ b.size = omega (arith, page_offset_admitted p valid.0 e) in
    ((λ i. not_there i), rw (e, off, tidy b.size (omega arith) small))
