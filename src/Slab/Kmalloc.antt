-- ===== src/Slab/Kmalloc.antt =====
-- `kmalloc`, `kfree`, `kfree_hint` and `createCache`. The list of the caches is linked by `next`.
use osext.Common.{
  ℕ, Bool, true, false, not, Option, none, some, List, [], ◌∷◌, ltb, leb, ◌==◌, if◌then◌else◌,
}
use osext.Slab.State.{Cache, Store, no_malloc}
use osext.Slab.Cache.{done, free_object_from_cache}

-- One round of the search for the best fit, for a cache that is larger than `size`.
unfoldable pub better : Option Cache → Cache → Option Cache
better none c = some c
better (some b) c = if ltb c.obj_size b.obj_size then some c else some b

unfoldable pub best_fit : (size : ℕ) → Option Cache → List Cache → Option Cache
best_fit size best [] = best
best_fit size best (c ∷ cs) =
    let skip = best_fit size best cs in
    let replaced = best_fit size (better best c) cs in
    if no_malloc c.flags
    then skip
    else if c.obj_size == size
    then some c
    else if ltb size c.obj_size
    then replaced
    else skip

-- The cache from which `kmalloc` allocates; `none` is the return value `NULL`.
unfoldable pub kmalloc_cache : (size : ℕ) → List Cache → Option Cache
kmalloc_cache size caches = if ltb 1024 size then none else best_fit size none caches

-- How a walk over the caches ends: with the cache that took the object back, in its new state.
pub data Freed : Type 0 where
  by : List Store → Freed
  nowhere : Freed
  broken : Freed

unfoldable pub with_cache : Store → Freed → Freed
with_cache st (by sts) = by (st ∷ sts)
with_cache st nowhere = nowhere
with_cache st broken = broken

-- The caches that pass the test are asked in turn.
unfoldable pub free_in_caches : (Cache → Bool) → ℕ → (obj : ℕ) → List Store → Freed
free_in_caches asked fuel obj [] = nowhere
free_in_caches asked fuel obj (st ∷ sts) =
    let rest = with_cache st (free_in_caches asked fuel obj sts) in
    if asked st.cache
    then elim (free_object_from_cache fuel obj st) [
      | done true st' ↦ by (st' ∷ sts)
      | done false st' ↦ rest
      | _ ↦ broken
    ]
    else rest

unfoldable pub kfree : ℕ → (obj : ℕ) → List Store → Freed
kfree fuel obj sts = free_in_caches (λ c. not (no_malloc c.flags)) fuel obj sts

unfoldable pub kfree_hint : ℕ → (obj size : ℕ) → List Store → Freed
kfree_hint fuel obj size sts = free_in_caches (λ c. leb size c.obj_size) fuel obj sts

unfoldable pub create_cache : (obj_size alignment flags : ℕ) → List Cache → List Cache
create_cache obj_size alignment flags caches =
    (record {
      full = 0;
      partial = 0;
      free = 0;
      obj_size = obj_size;
      alignment = alignment;
      flags = flags;
    })
    ∷ caches
