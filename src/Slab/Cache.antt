-- ===== src/Slab/Cache.antt =====
-- The slabs of one cache, in three lists that are linked through the store.
use osext.Common.{ℕ, zero, suc, Bool, true, false, Option, none, some, ◌==◌, if◌then◌else◌}
use osext.Slab.State.{Slab, Store, put}
use osext.Slab.Objects.{
  got, full, freed, not_here, alloc_object_from_slab, free_object_from_slab, is_slab_free,
}

-- How a call ends. `grows` is the call of `growCache`, after which the source starts again; `fault`
-- is a read through a pointer to no slab.
pub data Result (A : Type 0) : Type 0 where
  done : A → Store → Result A
  grows : Store → Result A
  panics : Store → Result A
  fault : Result A
  out_of_fuel : Result A

-- `prev->next = q`, or the head of the list if `prev` is `NULL`
unfoldable pub relink_partial : (prev q : ℕ) → Store → Option Store
relink_partial prev q st =
    if prev == 0
    then some (record st { cache = record (st.cache) { partial = q } })
    else elim (st.slabs prev) [ none ↦ none | some s ↦ some (put st prev (record s { next = q })) ]

unfoldable pub relink_full : (prev q : ℕ) → Store → Option Store
relink_full prev q st =
    if prev == 0
    then some (record st { cache = record (st.cache) { full = q } })
    else elim (st.slabs prev) [ none ↦ none | some s ↦ some (put st prev (record s { next = q })) ]

-- `p->next = cache->full; cache->full = p`, and so for the other lists
unfoldable pub push_full : ℕ → Store → Option Store
push_full p st = elim (st.slabs p) [
  | none ↦ none
  | some s ↦ some (record (put st p (record s { next = st.cache.full })) {
    cache = record (st.cache) { full = p };
  })
]

unfoldable pub push_partial : ℕ → Store → Option Store
push_partial p st = elim (st.slabs p) [
  | none ↦ none
  | some s ↦ some (record (put st p (record s { next = st.cache.partial })) {
    cache = record (st.cache) { partial = p };
  })
]

unfoldable pub push_free : ℕ → Store → Option Store
push_free p st = elim (st.slabs p) [
  | none ↦ none
  | some s ↦ some (record (put st p (record s { next = st.cache.free })) {
    cache = record (st.cache) { free = p };
  })
]

unfoldable pub take_from_free : ℕ → Slab → Store → Result ℕ
take_from_free p s st = elim (alloc_object_from_slab s st.cache.obj_size st.cache.flags) [
  | got obj s' ↦ done obj (put st p s')
  | _ ↦ panics st
]

-- The first free slab becomes the first partial one, and an object is taken from it.
unfoldable pub alloc_from_free : Store → Result ℕ
alloc_from_free st = if st.cache.free == 0 then grows st else elim (st.slabs st.cache.free) [
  | none ↦ fault
  | some s ↦
      take_from_free st.cache.free (record s { next = st.cache.partial })
        (record (put st st.cache.free (record s { next = st.cache.partial })) {
          cache = record (st.cache) { free = s.next; partial = st.cache.free };
        })
]

unfoldable pub then_push_full : ℕ → Option Store → Option Store
then_push_full p none = none
then_push_full p (some st) = push_full p st

-- A slab without room goes to the front of the full list.
unfoldable pub retire : (prev p : ℕ) → Slab → Store → Option Store
retire prev p s st = then_push_full p (relink_partial prev s.next st)

-- The address in `p->next`, 0 where there is no slab.
abbrev pub next_of : ℕ → Store → ℕ
next_of p st = elim (st.slabs p) [ none ↦ 0 | some s ↦ s.next ]

-- The loop over the partial slabs, `cslab` and `prevslab` of the source.
unfoldable pub alloc_loop : ℕ → (prev p : ℕ) → Store → Result ℕ
alloc_loop zero prev p st = out_of_fuel
alloc_loop (suc n) prev p st = if p == 0 then alloc_from_free st else elim (st.slabs p) [
  | none ↦ fault
  | some s ↦ elim (alloc_object_from_slab s st.cache.obj_size st.cache.flags) [
    | got obj s' ↦ done obj (put st p s')
    | full ↦ elim (retire prev p s st) [
      | none ↦ fault
      | some st' ↦ alloc_loop n p (next_of p st') st'
    ]
    | _ ↦ panics st
  ]
]

unfoldable pub alloc_object_from_cache : ℕ → Store → Result ℕ
alloc_object_from_cache fuel st =
    if st.cache.partial == 0 then alloc_from_free st else alloc_loop fuel 0 st.cache.partial st

-- The object was on a full slab, which becomes partial.
unfoldable pub move_to_partial : (prev p : ℕ) → Slab → Store → Result Bool
move_to_partial prev p s st = elim (relink_full prev s.next (put st p s)) [
  | none ↦ fault
  | some st' ↦ elim (push_partial p st') [ none ↦ fault | some st'' ↦ done true st'' ]
]

-- The object was on a partial slab, which goes to the free list if it passes `isSlabFree`.
unfoldable pub move_to_free : (prev p : ℕ) → Slab → Store → Result Bool
move_to_free prev p s st = elim (is_slab_free s st.cache.obj_size st.cache.flags) [
  | none ↦ panics st
  | some false ↦ done true (put st p s)
  | some true ↦ elim (relink_partial prev s.next (put st p s)) [
    | none ↦ fault
    | some st' ↦ elim (push_free p st') [ none ↦ fault | some st'' ↦ done true st'' ]
  ]
]

-- Both search loops: `found` is what happens with the slab that the object was on.
unfoldable pub free_loop :
    ((prev p : ℕ) → Slab → Store → Result Bool)
    → Result Bool
    → ℕ
    → (prev p obj : ℕ) → Store
    → Result Bool
free_loop found missed zero prev p obj st = out_of_fuel
free_loop found missed (suc n) prev p obj st =
    let rest = λ (q : ℕ). free_loop found missed n p q obj st in
    if p == 0 then missed else elim (st.slabs p) [
      | none ↦ fault
      | some s ↦ elim (free_object_from_slab s st.cache.obj_size obj st.cache.flags) [
        | freed s' ↦ found prev p s' st
        | not_here ↦ rest s.next
        | _ ↦ panics st
      ]
    ]

unfoldable pub free_object_from_cache : ℕ → (obj : ℕ) → Store → Result Bool
free_object_from_cache fuel obj st =
    let missed = done false st in
    let in_partial = free_loop move_to_free missed fuel 0 st.cache.partial obj st in
    if st.cache.partial == 0
    then free_loop move_to_partial missed fuel 0 st.cache.full obj st
    else free_loop move_to_partial in_partial fuel 0 st.cache.full obj st
