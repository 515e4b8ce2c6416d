-- ===== src/Slab/ObjectLaws.antt =====
-- Taking an object from a slab and giving it back.
use osext.Common.{
  ℕ, suc, ◌+◌, ◌-◌, ◌*◌, ◌/◌, ◌≤◌, ◌<◌, Bool, true, false, ltb, ◌&&◌, not, ◌==◌, if◌then◌else◌, ◌≡◌,
  refl, arith, ap, ◌∙◌, inl, inr, Bool-cases, sym, List, Option, none, some, length,
}
use mathlib.Core.Path.{subst}
use native.Mathlib.Nat.{le-div_iff_mul-le, mul-div_cancel}
use osext.Common.{length-set}
use osext.Slab.State.{Slab, on_slab}
use osext.Slab.Objects.{
  objects_start, objects, is_used, mark_used, mark_unused, find_unused, got, full, take_object,
  alloc_object_from_slab, freed, free_object_from_slab,
}
use osext.Slab.Bits.{is_used-mark_used, is_used-mark_unused, found_unused, none_unused}

-- The used array has a bit for every object and one more, and the objects begin on the slab.
pub record IsSlab (s : Slab) (obj_size flags : ℕ) : Type 0 where
  pub sized : 0 < obj_size
  pub bytes : objects s obj_size flags / 8 < length s.used
  pub inside : objects_start s obj_size flags ≤ s.start + s.size * 4096
  pub has_array : (not (on_slab obj_size flags) && not s.has_used) ≡ false

-- The objects lie on the slab.
multiple_fits : (i n w : ℕ) → 0 < w → i < n / w → i * w + w ≤ n
multiple_fits i n w p h = let a : suc i * w ≤ n = (le-div_iff_mul-le p).0 h in grind (arith, a)

at_true : {b : Bool} {i m : ℕ} (n : ℕ) → b ≡ true → i < (if b then m else n) → i < m
at_true {i = i} {m = m} n e h = subst (λ x. i < (if x then m else n)) e h

at_false : {b : Bool} {i n : ℕ} (m : ℕ) → b ≡ false → i < (if b then m else n) → i < n
at_false {i = i} {n = n} m e h = subst (λ x. i < (if x then m else n)) e h

objects_fit :
    (s : Slab) (obj_size flags i : ℕ)
    → IsSlab s obj_size flags
    → i < objects s obj_size flags
    → objects_start s obj_size flags + i * obj_size + obj_size ≤ s.start + s.size * 4096
unfolding objects objects_start
objects_fit s obj_size flags i v h = elim (Bool-cases (on_slab obj_size flags)) [
  | inl e ↦
      let g =
        multiple_fits i (s.start + s.size * 4096 - objects_start s obj_size flags) obj_size v.sized
          (at_true _ e h) in
      let w = v.inside in ground (arith, g, w)
  | inr e ↦
      let g = multiple_fits i (s.size * 4096) obj_size v.sized (at_false _ e h) in
      rw e (ground (arith, g))
]

-- What an allocation that returns an object has done.
pub record GotObject (s : Slab) (obj_size flags obj : ℕ) (s' : Slab) : Type 0 where
  pub index : ℕ
  pub in_range : index < objects s obj_size flags
  pub address : obj ≡ objects_start s obj_size flags + index * obj_size
  pub on_the_slab : obj + obj_size ≤ s.start + s.size * 4096
  pub was_unused : is_used s.used index ≡ 0
  pub first : (j : ℕ) → j < index → is_used s.used j ≡ 1
  pub marked : (j : ℕ) → is_used s'.used j ≡ (if index == j then 1 else is_used s.used j)
  pub state : record s { used = mark_used s.used index } ≡ s'
  pub same :
      (s'.start ≡ s.start) × (s'.size ≡ s.size) × (s'.next ≡ s.next) × (s'.has_used ≡ s.has_used)

used_byte :
    (s : Slab) (obj_size flags i : ℕ)
    → IsSlab s obj_size flags
    → i < objects s obj_size flags
    → i / 8 < length s.used
used_byte s obj_size flags i v h = omega (arith, v.bytes)

take_object-none :
    (s : Slab) (obj_size flags : ℕ) (r : Option ℕ)
    → take_object s obj_size flags r ≡ full
    → r ≡ none
unfolding take_object
take_object-none s obj_size flags none h = refl
take_object-none s obj_size flags (some i) h = absurd (let x : ⊥ = cc in x)

got-eq : (o o' : ℕ) (s s' : Slab) → got o s ≡ got o' s' → (o ≡ o') × (s ≡ s')
got-eq o o' s s' h = (cc, cc)

take_object-GotObject :
    (s s' : Slab) (obj_size flags obj : ℕ) (r : Option ℕ)
    → IsSlab s obj_size flags
    → find_unused s.used (objects s obj_size flags) 0 ≡ r
    → take_object s obj_size flags r ≡ got obj s'
    → GotObject s obj_size flags obj s'
unfolding take_object
take_object-GotObject s s' obj_size flags obj none v e h = absurd (let x : ⊥ = cc in x)
take_object-GotObject s s' obj_size flags obj (some i) v e h =
    let k = found_unused s.used (objects s obj_size flags) 0 i e in
    let eqs : (objects_start s obj_size flags + i * obj_size ≡ obj)
        × (record s { used = mark_used s.used i } ≡ s') =
      got-eq _ _ _ _ h in
    subst (λ o. GotObject s obj_size flags o s') eqs.0
      (subst (λ t. GotObject s obj_size flags (objects_start s obj_size flags + i * obj_size) t)
        eqs.1
        (record {
          index = i;
          in_range = omega (arith, k.1);
          address = refl;
          on_the_slab = objects_fit s obj_size flags i v (omega (arith, k.1));
          was_unused = k.2;
          first = λ j q. k.3 j (omega arith) q;
          marked = λ j.
              is_used-mark_used s.used i j (used_byte s obj_size flags i v (omega (arith, k.1)));
          state = refl;
          same = (refl, refl, refl, refl);
        }))

-- On a well-formed slab, an allocation that returns an object returns the first one whose bit was
-- clear; it lies on the slab, its bit is set, every other bit and the other fields of the
-- descriptor stay as they are.
pub alloc_object_from_slab-GotObject :
    (s s' : Slab) (obj_size flags obj : ℕ)
    → IsSlab s obj_size flags
    → alloc_object_from_slab s obj_size flags ≡ got obj s'
    → GotObject s obj_size flags obj s'
unfolding alloc_object_from_slab
alloc_object_from_slab-GotObject s s' obj_size flags obj v h =
    take_object-GotObject s s' obj_size flags obj _ v refl (rw v.has_array at h)

-- A well-formed slab is reported as full only when the bit of each of its objects is set.
pub alloc_object_from_slab-full :
    (s : Slab) (obj_size flags j : ℕ)
    → IsSlab s obj_size flags
    → alloc_object_from_slab s obj_size flags ≡ full
    → j < objects s obj_size flags
    → is_used s.used j ≡ 1
unfolding alloc_object_from_slab
alloc_object_from_slab-full s obj_size flags j v h p =
    none_unused s.used (objects s obj_size flags) 0 j
      (take_object-none s obj_size flags _ (rw v.has_array at h)) (omega arith) (omega arith)

start-mark_used :
    (s : Slab) (obj_size flags i : ℕ)
    → objects_start (record s { used = mark_used s.used i }) obj_size flags
      ≡ objects_start s obj_size flags
unfolding objects_start
start-mark_used s obj_size flags i = refl

objects-mark_used :
    (s : Slab) (obj_size flags i : ℕ)
    → objects (record s { used = mark_used s.used i }) obj_size flags ≡ objects s obj_size flags
unfolding objects objects_start
objects-mark_used s obj_size flags i = refl

length-mark_used : (used : List ℕ) (i : ℕ) → length (mark_used used i) ≡ length used
unfolding mark_used
length-mark_used used i = length-set used (i / 8) _

free_marked :
    (s : Slab) (obj_size flags i : ℕ)
    → IsSlab s obj_size flags
    → i < objects s obj_size flags
    → free_object_from_slab
        (record s { used = mark_used s.used i })
        obj_size
        (objects_start s obj_size flags + i * obj_size)
        flags
      ≡ freed (record s { used = mark_unused (mark_used s.used i) i })
unfolding free_object_from_slab
free_marked s obj_size flags i v h =
    let start = objects_start s obj_size flags in
    let q : (start + i * obj_size - start) / obj_size ≡ i =
      ap (λ x. x / obj_size) (omega arith) ∙ mul-div_cancel i v.sized in
    let b : ltb (start + i * obj_size) start ≡ false = ground arith in
    let c : ltb (objects s obj_size flags) i ≡ false = ground arith in
    rw
      (
        start-mark_used s obj_size flags i,
        objects-mark_used s obj_size flags i,
        b,
        q,
        c,
        v.has_array,
      )
      refl

unmark-mark :
    (used : List ℕ) (i j : ℕ)
    → i / 8 < length used
    → is_used used i ≡ 0
    → is_used (mark_unused (mark_used used i) i) j ≡ is_used used j
unmark-mark used i j h e = ground (
  arith,
  is_used-mark_unused (mark_used used i) i j
      (subst (λ n. i / 8 < n) (sym (length-mark_used used i)) h),
  is_used-mark_used used i j h,
)

-- On a well-formed slab, giving back the object that was just allocated succeeds and restores the
-- used bit of every object.
pub free-alloc_object_from_slab :
    (s s' : Slab) (obj_size flags obj : ℕ)
    → IsSlab s obj_size flags
    → alloc_object_from_slab s obj_size flags ≡ got obj s'
    → (t : Slab) × (free_object_from_slab s' obj_size obj flags ≡ freed t)
      × ((j : ℕ) → is_used t.used j ≡ is_used s.used j)
free-alloc_object_from_slab s s' obj_size flags obj v h =
    let g = alloc_object_from_slab-GotObject s s' obj_size flags obj v h in
    (
      record s { used = mark_unused (mark_used s.used g.index) g.index },
      ap (λ t. free_object_from_slab t obj_size obj flags) (sym g.state)
          ∙ ap
              (λ o.
                free_object_from_slab (record s { used = mark_used s.used g.index }) obj_size o
                  flags)
              g.address
          ∙ free_marked s obj_size flags g.index v g.in_range,
      λ j.
          unmark-mark s.used g.index j (used_byte s obj_size flags g.index v g.in_range)
            g.was_unused,
    )
