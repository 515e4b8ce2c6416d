-- ===== src/Slab/Grown.antt =====
-- Allocation from a cache that has grown.
use osext.Common.{ℕ, ◌+◌, ◌≤◌, [], ◌∷◌, ◌++◌, ◌≡◌}
use osext.Slab.State.{Slab, Store}
use osext.Slab.Cache.{done, alloc_object_from_cache}
use osext.Slab.Grow.{Heap, Given, grown, grow_cache, added, noncached}

-- Growing succeeds on the heap `k`, as it is when the slab is entered: the page is also entered for
-- the virtual memory manager, and the next allocation gives an object on it.
unfoldable pub Allocates : (fuel : ℕ) → Given → (h k : Heap) → (page : ℕ) → Type 0
Allocates fuel a h k page =
    (h' : Heap) × (obj : ℕ) × (st : Store) × ((grow_cache a h ≡ grown h')
      × (h'.table ≡ k.table)
      × (h'.next_page ≡ k.next_page)
      × (h'.mappings ≡ k.mappings ++ (added (noncached h.store.cache.flags) page h.next_page ∷ []))
      × (alloc_object_from_cache fuel h'.store ≡ done obj st)
      × (h.next_page ≤ obj)
      × (obj + h.store.cache.obj_size ≤ h.next_page + 4096))
