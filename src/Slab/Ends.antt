-- ===== src/Slab/Ends.antt =====
-- The ends of a slab: the object behind the last one, and the bytes that the test for an empty slab
-- reads.
use osext.Common.{
  ℕ, ◌+◌, ◌-◌, ◌*◌, ◌/◌, ◌<◌, true, false, ltb, ◌&&◌, not, ◌≡◌, refl, arith, ap, ◌∙◌, some,
}
use osext.Common.{get_or}
use native.Mathlib.Nat.{mul-div_cancel}
use osext.Slab.State.{Slab, on_slab}
use osext.Slab.Objects.{
  objects_start, objects, mark_unused, freed, free_object_from_slab, is_slab_free,
}
use osext.Slab.Bits.{all_zero_lem}

start_off_slab :
    (s : Slab) (obj_size flags : ℕ)
    → on_slab obj_size flags ≡ false
    → objects_start s obj_size flags ≡ s.start
unfolding objects_start
start_off_slab s obj_size flags h = rw h refl

-- Where the descriptor lies elsewhere and the objects fill the slab, the address behind the last
-- object is taken for an object of the slab: giving it back succeeds and clears the bit behind that
-- of the last object.
pub free_behind_last_object :
    (s : Slab) (obj_size flags : ℕ)
    → on_slab obj_size flags ≡ false
    → s.has_used ≡ true
    → 0 < obj_size
    → objects s obj_size flags * obj_size ≡ s.size * 4096
    → free_object_from_slab s obj_size (s.start + s.size * 4096) flags
      ≡ freed (record s { used = mark_unused s.used (objects s obj_size flags) })
unfolding free_object_from_slab
free_behind_last_object s obj_size flags off has p fills =
    let n = objects s obj_size flags in
    let q : (s.start + s.size * 4096 - s.start) / obj_size ≡ n =
      ap (λ x. x / obj_size) (omega (arith, fills)) ∙ mul-div_cancel n p in
    let b : ltb (s.start + s.size * 4096) s.start ≡ false = ground arith in
    let c : ltb n n ≡ false = ground arith in
    rw (start_off_slab s obj_size flags off, b, q, c, off, has) refl

-- A slab whose descriptor has its used bits passes for empty as soon as their first
-- `objects / obj_size + 1` bytes are zero, whatever the bytes behind them are.
pub is_slab_free-first_bytes :
    (s : Slab) (obj_size flags : ℕ)
    → (not (on_slab obj_size flags) && not s.has_used) ≡ false
    → ((j : ℕ) → j < objects s obj_size flags / obj_size + 1 → get_or s.used j 0 ≡ 0)
    → is_slab_free s obj_size flags ≡ some true
unfolding is_slab_free
is_slab_free-first_bytes s obj_size flags has zeros = rw has (
    ap some (
      all_zero_lem s.used (objects s obj_size flags / obj_size + 1) 0
        (λ j _ h. zeros j (omega (arith, h)))))
