-- ===== src/Slab/Objects.antt =====
-- One slab: taking an object, giving it back, and the test for an empty slab. A descriptor has 16
-- bytes.
use osext.Common.{
  ℕ, zero, suc, ◌+◌, ◌-◌, ◌*◌, ◌/◌, ◌%◌, ◌^◌, Bool, true, false, not, ◌&&◌, Option, none, some,
  List, bit_and, bit_or, ltb, ◌==◌, if◌then◌else◌, get_or, set,
}
use osext.Slab.State.{Slab, on_slab, align_4_bytes}

-- Where the objects begin.
unfoldable pub objects_start : Slab → ℕ → ℕ → ℕ
objects_start s obj_size flags =
    if on_slab obj_size flags
    then align_4_bytes (s.start + 16 + s.size * 4096 / obj_size / 8 + 1)
    else s.start

-- How many objects there are. The products by 4096 are of 32 bits in the source; here they are not
-- bounded, as a slab has fewer than 2^20 pages.
unfoldable pub objects : Slab → ℕ → ℕ → ℕ
objects s obj_size flags =
    if on_slab obj_size flags
    then (s.start + s.size * 4096 - objects_start s obj_size flags) / obj_size
    else s.size * 4096 / obj_size

-- `(used[i/8] >> (i%8)) & 1`
unfoldable pub is_used : List ℕ → ℕ → ℕ
is_used used i = bit_and (get_or used (i / 8) 0 / 2 ^ (i % 8)) 1

-- `used[i/8] | (1 << (i%8))` and `used[i/8] & ~(1 << (i%8))`, in a byte
unfoldable pub mark_used : List ℕ → ℕ → List ℕ
mark_used used i = set used (i / 8) (bit_or (get_or used (i / 8) 0) (2 ^ (i % 8)))

unfoldable pub mark_unused : List ℕ → ℕ → List ℕ
mark_unused used i = set used (i / 8) (bit_and (get_or used (i / 8) 0) (2 ^ 8 - 1 - 2 ^ (i % 8)))

-- The search for a clear bit: `n` rounds are left, from object `i` on.
unfoldable pub find_unused : List ℕ → ℕ → ℕ → Option ℕ
find_unused used zero i = none
find_unused used (suc n) i =
    let rest = find_unused used n (i + 1) in if is_used used i == 0 then some i else rest

-- `full` is the return value `NULL`.
pub data Taken : Type 0 where
  got : (obj : ℕ) (s : Slab) → Taken
  full : Taken
  panic : Taken

unfoldable pub take_object : Slab → ℕ → ℕ → Option ℕ → Taken
take_object s obj_size flags none = full
take_object s obj_size flags (some i) =
    got (objects_start s obj_size flags + i * obj_size) (record s { used = mark_used s.used i })

unfoldable pub alloc_object_from_slab : Slab → ℕ → ℕ → Taken
alloc_object_from_slab s obj_size flags =
    if not (on_slab obj_size flags) && not s.has_used
    then panic
    else take_object s obj_size flags (find_unused s.used (objects s obj_size flags) 0)

pub data Returned : Type 0 where
  freed : Slab → Returned
  not_here : Returned
  panic : Returned

-- Addresses are compared as they are: the difference of the two addresses cast to `int32_t`, which
-- the source takes where the descriptor is on the slab, has the same sign for addresses less than
-- 2 GB apart.
unfoldable pub free_object_from_slab : Slab → ℕ → ℕ → ℕ → Returned
free_object_from_slab s obj_size obj flags =
    let start = objects_start s obj_size flags in
    let index = (obj - start) / obj_size in
    if ltb obj start
    then not_here
    else if ltb (objects s obj_size flags) index
    then not_here
    else if not (on_slab obj_size flags) && not s.has_used
    then panic
    else freed (record s { used = mark_unused s.used index })

-- `n` bytes are left, from byte `i` on.
unfoldable pub all_zero : List ℕ → ℕ → ℕ → Bool
all_zero used zero i = true
all_zero used (suc n) i =
    let rest = all_zero used n (i + 1) in if get_or used i 0 == 0 then rest else false

-- `none` is a panic.
unfoldable pub is_slab_free : Slab → ℕ → ℕ → Option Bool
is_slab_free s obj_size flags =
    if not (on_slab obj_size flags) && not s.has_used
    then none
    else some (all_zero s.used (objects s obj_size flags / obj_size + 1) 0)
