-- ===== src/LinkedList/Remove.antt =====
-- Removing an entry.
use osext.Common.{
  ℕ, zero, suc, ◌+◌, ◌<◌, Bool, true, false, ◌==◌, if◌then◌else◌, some, List, [], ◌∷◌, length, ◌≡◌,
  ◌≢◌, refl, sym, ap, ◌∙◌, arith, Bool-cases, inl, inr, ==_iff,
}
use mathlib.Core.Path.{subst}
use osext.LinkedList.{Entries, set_next, unlinked, unlink_entry, remove_entry}
use osext.LinkedList.Chains.{Chain, Absent, Chain-set_next, next-set_next}

abbrev pub Distinct : List ℕ → Type 0
Distinct [] = Unit
Distinct (d ∷ ds) = Absent d ds × Distinct ds

-- The sequence without the first occurrence of `e`, and whether there is one.
abbrev pub without : ℕ → List ℕ → List ℕ
without e [] = []
without e (d ∷ ds) = let rest = without e ds in if d == e then ds else d ∷ rest

abbrev pub contains : ℕ → List ℕ → Bool
contains e [] = false
contains e (d ∷ ds) = let rest = contains e ds in if d == e then true else rest

-- What the search behind the entry `d` has done.
record Unlinked (st : Entries) (d e : ℕ) (ds : List ℕ) (r : Bool × Entries) : Type 0 where
  chain : Chain r.1 d (d ∷ without e ds)
  was_there : r.0 ≡ contains e ds
  kept : (q : ℕ) → Absent q (d ∷ ds) → r.1.next q ≡ st.next q

next-set_other : (st : Entries) (d q p : ℕ) → d ≢ q → (set_next d p st).next q ≡ st.next q
unfolding set_next
next-set_other st d q p ne = let z : (q == d) ≡ false = ground (arith, ne) in rw z refl

-- The entry follows `d`.
unlinked_here :
    (st : Entries) (d e : ℕ) (ds : List ℕ)
    → e ≢ 0
    → Chain st d (d ∷ e ∷ ds)
    → Distinct (d ∷ e ∷ ds)
    → Unlinked st d e (e ∷ ds) (true, unlinked d e st)
unfolding unlinked
unlinked_here st d e ds ne c u =
    let z : (e == 0) ≡ false = ground (arith, ne) in
    let y : (e == e) ≡ true = (==_iff e e).1 refl in
    rw z (record {
      chain = (
        refl,
        c.1,
        rw y (
            subst (λ x. Chain (set_next d (st.next e) st) x ds)
              (sym (next-set_next st d (st.next e)))
              (Chain-set_next st d (st.next e) (st.next e) ds u.0.1 c.2.2)),
      );
      was_there = rw y refl;
      kept = λ q a. next-set_other st d q (st.next e) a.0;
    })

found_here :
    (fuel : ℕ) (st : Entries) (d b e : ℕ) (bs : List ℕ)
    → b ≡ e
    → Chain st d (d ∷ b ∷ bs)
    → Distinct (d ∷ b ∷ bs)
    → (r : Bool × Entries) × (unlink_entry (suc fuel) d e st ≡ some r) × Unlinked st d e (b ∷ bs) r
unfolding unlink_entry
found_here fuel st d b e bs be c u =
    let z : (d == 0) ≡ false = ground (arith, c.1) in
    let y : (st.next d == b) ≡ true = (==_iff (st.next d) b).1 c.2.0 in
    subst
      (λ x.
        (r : Bool × Entries) × (unlink_entry (suc fuel) d x st ≡ some r)
        × Unlinked st d x (b ∷ bs) r)
      be
      (
        (true, unlinked d b st),
        rw (z, y) (ap (λ x. some (true, unlinked d x st)) c.2.0),
        unlinked_here st d b bs c.2.1 c u,
      )

unlink_entry-Unlinked :
    (fuel : ℕ) (st : Entries) (d e : ℕ) (ds : List ℕ)
    → e ≢ 0
    → length ds + 1 < fuel
    → Chain st d (d ∷ ds)
    → Distinct (d ∷ ds)
    → (r : Bool × Entries) × (unlink_entry fuel d e st ≡ some r) × Unlinked st d e ds r
unfolding unlink_entry
unlink_entry-Unlinked zero st d e ds ne h c u = absurd (omega (arith, h))
unlink_entry-Unlinked (suc zero) st d e ds ne h c u = absurd (omega (arith, h))
unlink_entry-Unlinked (suc (suc f)) st d e [] ne h c u =
    let z : (d == 0) ≡ false = ground (arith, c.1) in
    let n : (st.next d == 0) ≡ true = (==_iff (st.next d) 0).1 c.2 in
    let y : (st.next d == e) ≡ false = ground (arith, c.2, ne) in
    ((false, st), rw (z, y, n) refl, record { chain = c; was_there = refl; kept = λ q a. refl })
unlink_entry-Unlinked (suc fuel) st d e (b ∷ bs) ne h c u = elim (Bool-cases (b == e)) [
  | inl y ↦ found_here fuel st d b e bs ((==_iff b e).0 y) c u
  | inr y ↦
      let ih =
        unlink_entry-Unlinked fuel st b e bs ne (omega (arith, h)) (refl, c.2.1, c.2.2) u.1 in
      let z : (d == 0) ≡ false = ground (arith, c.1) in
      let n : (st.next d == e) ≡ false = ground (arith, c.2.0, y) in
      (
        ih.0,
        rw (z, n) (ap (λ x. unlink_entry fuel x e st) c.2.0 ∙ ih.1),
        record {
          chain = (
            refl,
            c.1,
            rw y (
                subst (λ x. Chain ih.0.1 x (b ∷ without e bs)) (sym (ih.2.kept d u.0 ∙ c.2.0))
                  ih.2.chain),
          );
          was_there = rw y ih.2.was_there;
          kept = λ q a. ih.2.kept q a.1;
        },
      )
]

-- With more fuel than there are entries and one, and an entry that is not NULL,
-- removeLinkedListEntry ends; the list that is left has the entries of the list before without the
-- given one, in order, and the result says whether that was there.
pub remove_entry-without :
    (st : Entries) (fuel p e : ℕ) (es : List ℕ)
    → e ≢ 0
    → length es + 1 < fuel
    → Chain st p es
    → Distinct es
    → (r : Bool × Entries × ℕ) × (remove_entry fuel p e st ≡ some r)
      × Chain r.1 r.2 (without e es)
      × (r.0 ≡ contains e es)
unfolding remove_entry unlink_entry
remove_entry-without st zero p e es ne h c u = absurd (omega (arith, h))
remove_entry-without st (suc fuel) p e [] ne h c u =
    let y : (p == e) ≡ false = ground (arith, c, ne) in
    let z : (p == 0) ≡ true = (==_iff p 0).1 c in
    ((false, st, p), rw (y, unlink_entry, z) refl, c, refl)
remove_entry-without st (suc fuel) p e (d ∷ ds) ne h c u = elim (Bool-cases (d == e)) [
  | inl y ↦
      let x : (p == e) ≡ true = (==_iff p e).1 (c.0 ∙ (==_iff d e).0 y) in
      (
        (true, st, st.next p),
        rw x refl,
        rw y (subst (λ q. Chain st (st.next q) ds) (sym c.0) c.2),
        rw y refl,
      )
  | inr y ↦
      let x : (p == e) ≡ false = ground (arith, c.0, y) in
      let w = unlink_entry-Unlinked (suc fuel) st d e ds ne (omega (arith, h)) (refl, c.1, c.2) u in
      let eq : unlink_entry (suc fuel) p e st ≡ some w.0 =
        ap (λ q. unlink_entry (suc fuel) q e st) c.0 ∙ w.1 in
      (
        (w.0.0, w.0.1, p),
        rw (x, eq) refl,
        rw y (subst (λ q. Chain w.0.1 q (d ∷ without e ds)) (sym c.0) w.2.chain),
        rw y w.2.was_there,
      )
]
