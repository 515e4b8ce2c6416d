-- ===== src/Modules/Balance.antt =====
-- The pages that installing a module takes and gives back.
use osext.Common.{
  ℕ, ◌%◌, true, false, ◌==◌, if◌then◌else◌, ◌≡◌, ◌≢◌, refl, ◌∙◌, arith, Bool-cases, inl, inr, [],
  ◌∷◌,
}
use osext.Physical.{Table, is_page_used, set_page_used_bit}
use osext.Physical.Valid.{IsTable, InTable}
use osext.Physical.Flags.{set_used-read, set_used-IsTable, set_used-InTable}
use osext.Physical.Consecutive.{
  covers, GivenRun, free_consecutive_pages-is_page_used, free_consecutive_pages-InTable,
  free_consecutive_pages-IsTable,
}
use osext.Elf.Pages.{free_unless_null}
use osext.Modules.Install.{Marks, mark_pages}

-- A predicate on pages limits what is said of them.
abbrev pub OnPages : Type 1
OnPages = ℕ → Type 0

-- Of these pages, those in use are those of the old table and the `n` pages from `p` on.
abbrev pub UsesMore : OnPages → Table → (p n : ℕ) → Table → Type 0
UsesMore these t p n t' =
    (q : ℕ)
    → these q
    → InTable q t
    → q % 4096 ≡ 0
    → is_page_used t' q ≡ (if covers p 0 n q then true else is_page_used t q)

abbrev pub SamePages : OnPages → Table → Table → Type 0
SamePages these t t' =
    (q : ℕ) → these q → InTable q t → q % 4096 ≡ 0 → is_page_used t' q ≡ is_page_used t q

-- The page is none of those that the call marks.
abbrev pub NotMarked : Marks → ℕ → Type 0
NotMarked [] q = Unit
NotMarked (m ∷ ms) q = (m.0 ≢ q) × NotMarked ms q

abbrev pub AlignedMarks : Marks → Type 0
AlignedMarks [] = Unit
AlignedMarks (m ∷ ms) = (m.0 % 4096 ≡ 0) × AlignedMarks ms

-- A call leaves these pages as they are, and the table valid.
pub record Spares (these : OnPages) (t t' : Table) : Type 0 where
  pub valid : IsTable t'
  pub of_table : (q : ℕ) → InTable q t → InTable q t'
  pub same : SamePages these t t'

pub Spares-refl : (these : OnPages) (t : Table) → IsTable t → Spares these t t
Spares-refl these t v = record { valid = v; of_table = λ q i. i; same = λ q p i a. refl }

pub Spares-trans :
    (these : OnPages) (t t' t'' : Table)
    → Spares these t t'
    → Spares these t' t''
    → Spares these t t''
Spares-trans these t t' t'' a b = record {
  valid = b.valid;
  of_table = λ q i. b.of_table q (a.of_table q i);
  same = λ q p i al. b.same q p (a.of_table q i) al ∙ a.same q p i al;
}

pub mark_pages-Spares :
    (these : OnPages) (ms : Marks) (t : Table)
    → AlignedMarks ms
    → ((q : ℕ) → these q → NotMarked ms q)
    → IsTable t
    → Spares these t (mark_pages ms t)
unfolding mark_pages
mark_pages-Spares these [] t al out v = Spares-refl these t v
mark_pages-Spares these (m ∷ ms) t al out v =
    let next = set_page_used_bit m.0 m.1 t in
    let one : Spares these t next = record {
      valid = set_used-IsTable m.0 m.1 t v;
      of_table = λ q i. set_used-InTable m.0 q m.1 t i;
      same = λ q p i a.
          let n : (m.0 == q) ≡ false = ground (arith, (out q p).0) in
          set_used-read t m.0 q m.1 v i al.0 a ∙ rw n refl;
    } in
    Spares-trans these t next (mark_pages ms next) one
      (mark_pages-Spares these ms next al.1 (λ q p. (out q p).1) one.valid)

free_unless_null_lem :
    (p n q : ℕ) (t : Table)
    → IsTable t
    → InTable q t
    → p % 4096 ≡ 0
    → q % 4096 ≡ 0
    → p ≢ 0
    → is_page_used (free_unless_null p n t) q ≡ (if covers p 0 n q then false else is_page_used t q)
unfolding free_unless_null
free_unless_null_lem p n q t valid i a b nz =
    let z : (p == 0) ≡ false = ground (arith, nz) in
    rw z (free_consecutive_pages-is_page_used p n q t valid i a b)

free_unless_null-valid :
    (p n : ℕ) (t : Table) → IsTable t → p % 4096 ≡ 0 → IsTable (free_unless_null p n t)
unfolding free_unless_null
free_unless_null-valid p n t valid a = elim (Bool-cases (p == 0)) [
  | inl e ↦ rw e valid
  | inr e ↦ rw e (free_consecutive_pages-IsTable p n t valid a)
]

free_unless_null-InTable :
    (p n q : ℕ) (t : Table) → InTable q t → InTable q (free_unless_null p n t)
unfolding free_unless_null
free_unless_null-InTable p n q t i = elim (Bool-cases (p == 0)) [
  | inl e ↦ rw e i
  | inr e ↦ rw e (free_consecutive_pages-InTable p n q t i)
]

-- A run that is given back.
pub freed_run :
    (these : OnPages) (t t' : Table) (n p : ℕ)
    → GivenRun t n 1 p t'
    → p ≢ 0
    → SamePages these t (free_unless_null p n t')
freed_run these t t' n p g nz q _ i a = ground (
  arith,
  free_unless_null_lem p n q t' g.valid (g.of_table q i) g.page_aligned a nz,
  g.marked q i a,
  g.were_free q,
)

-- Two runs, of which the first is given back after calls that spare the pages.
pub freed_first :
    (these : OnPages) (t t' t'' u : Table) (n p k r : ℕ)
    → GivenRun t n 1 p t'
    → p ≢ 0
    → GivenRun t' k 1 r t''
    → Spares these t'' u
    → UsesMore these t r k (free_unless_null p n u)
freed_first these t t' t'' u n p k r g nz h s q c i a =
    let inside = h.of_table q (g.of_table q i) in
    let one = free_unless_null_lem p n q u s.valid (s.of_table q inside) g.page_aligned a nz in
    let two = h.marked q (g.of_table q i) a in
    let three = g.marked q i a in
    ground (arith, one, two, three, s.same q c inside a, h.were_free q, g.were_free q)

-- Two runs that are both given back.
pub freed_both :
    (these : OnPages) (t t' t'' u : Table) (n p k r : ℕ)
    → GivenRun t n 1 p t'
    → p ≢ 0
    → GivenRun t' k 1 r t''
    → r ≢ 0
    → Spares these t'' u
    → SamePages these t (free_unless_null r k (free_unless_null p n u))
freed_both these t t' t'' u n p k r g nz h rz s q c i a =
    let first = freed_first these t t' t'' u n p k r g nz h s q c i a in
    let inside = s.of_table q (h.of_table q (g.of_table q i)) in
    let last =
      free_unless_null_lem r k q (free_unless_null p n u)
        (free_unless_null-valid p n u s.valid g.page_aligned)
        (free_unless_null-InTable p n q u inside) h.page_aligned a rz in
    ground (arith, first, last, h.were_free q, g.were_free q, g.marked q i a)
