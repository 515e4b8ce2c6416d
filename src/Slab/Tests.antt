-- ===== src/Slab/Tests.antt =====
-- The slab allocator on concrete slabs and caches.
use osext.Common.{
  ℕ, zero, suc, ◌+◌, ◌*◌, ◌/◌, ◌<◌, true, false, ◌==◌, if◌then◌else◌, ◌≡◌, refl, arith, [], ◌∷◌,
  none, some, get_or,
}
use osext.Slab.State.{Slab, Cache, Store}
use osext.Slab.Objects.{
  objects_start, objects, is_used, mark_used, find_unused, got, full, take_object,
  alloc_object_from_slab, freed, free_object_from_slab,
}
use osext.Slab.Cache.{out_of_fuel, alloc_object_from_cache}
use osext.Slab.Kmalloc.{better, best_fit, kmalloc_cache}
use osext.Slab.ObjectLaws.{
  IsSlab, GotObject, alloc_object_from_slab-GotObject, free-alloc_object_from_slab,
}
use osext.Slab.Endless.{IsFull, alloc_object_from_cache-endless}
use osext.Physical.{Table, PageBlock}
use osext.Slab.Grow.{Heap, Given, after_mapping}
use osext.Slab.BestFit.{KmallocCache, kmalloc_cache-Best}

-- A page of sixteen objects of 256 bytes, whose descriptor lies elsewhere. The first is used.
abbrev slab : Slab
slab = record { size = 1; start = 0xe4000000; next = 0; has_used = true; used = 1 ∷ 0 ∷ 0 ∷ [] }

slab-IsSlab : IsSlab slab 256 0
unfolding objects objects_start
slab-IsSlab = record {
  sized = omega arith;
  bytes = omega arith;
  inside = omega arith;
  has_array = refl;
}

second_object :
    alloc_object_from_slab slab 256 0 ≡ got 0xe4000100 (record slab { used = 3 ∷ 0 ∷ 0 ∷ [] })
unfolding alloc_object_from_slab take_object find_unused objects objects_start is_used mark_used
second_object = refl

alloc_object_from_slab-GotObject_example :
    GotObject slab 256 0 0xe4000100 (record slab { used = 3 ∷ 0 ∷ 0 ∷ [] })
alloc_object_from_slab-GotObject_example =
    alloc_object_from_slab-GotObject slab (record slab { used = 3 ∷ 0 ∷ 0 ∷ [] }) 256 0 0xe4000100
      slab-IsSlab second_object

free-alloc_object_from_slab_example :
    (t : Slab) × (free_object_from_slab (record slab { used = 3 ∷ 0 ∷ 0 ∷ [] }) 256 0xe4000100 0
      ≡ freed t)
    × ((j : ℕ) → is_used t.used j ≡ is_used slab.used j)
free-alloc_object_from_slab_example =
    free-alloc_object_from_slab slab (record slab { used = 3 ∷ 0 ∷ 0 ∷ [] }) 256 0 0xe4000100
      slab-IsSlab second_object

abbrev full_slab : Slab
full_slab = record slab { used = 255 ∷ 255 ∷ 0 ∷ [] }

full_slab-IsSlab : IsSlab full_slab 256 0
unfolding objects objects_start
full_slab-IsSlab = record {
  sized = omega arith;
  bytes = omega arith;
  inside = omega arith;
  has_array = refl;
}

no_object : alloc_object_from_slab full_slab 256 0 ≡ full
unfolding alloc_object_from_slab take_object find_unused objects objects_start is_used mark_used
no_object = refl

nine : 9 < objects full_slab 256 0
unfolding objects
nine = omega arith

-- The objects of 256 bytes fill the page.
fills : objects slab 256 0 * 256 ≡ slab.size * 4096
unfolding objects objects_start
fills = refl

-- Object 9 is used, but only the first byte is read.
abbrev hidden : Slab
hidden = record slab { used = 0 ∷ 2 ∷ 0 ∷ [] }

first_byte_zero : (j : ℕ) → j < objects hidden 256 0 / 256 + 1 → get_or hidden.used j 0 ≡ 0
unfolding objects objects_start
first_byte_zero zero h = refl
first_byte_zero (suc j) h = absurd (omega (arith, h))

abbrev cache : ℕ → Cache
cache obj_size = record {
  full = 0;
  partial = 0;
  free = 0;
  obj_size = obj_size;
  alignment = 0;
  flags = 0;
}

-- A store with the full slab at 100, the first partial one, and at 200, the first full one.
abbrev store : Store
store = record {
  cache = record (cache 256) { partial = 100; full = 200 };
  slabs = λ p. if p == 100 then some full_slab else if p == 200 then some full_slab else none;
}

abbrev first_full : IsFull store 100
first_full = record { slab = full_slab; there = refl; no_room = no_object }

abbrev second_full : IsFull store 200
second_full = record { slab = full_slab; there = refl; no_room = no_object }

alloc_object_from_cache-endless_example : alloc_object_from_cache 1000 store ≡ out_of_fuel
alloc_object_from_cache-endless_example =
    alloc_object_from_cache-endless store first_full second_full (omega arith) (omega arith)
      (omega arith) 1000

-- Of caches with objects of 512, 64 and 128 bytes, the third serves 100 bytes.
third_cache : kmalloc_cache 100 (cache 512 ∷ cache 64 ∷ cache 128 ∷ []) ≡ some (cache 128)
unfolding kmalloc_cache best_fit better
third_cache = refl

kmalloc_cache-Best_example :
    KmallocCache 100
      (cache 512 ∷ cache 64 ∷ cache 128 ∷ [])
      (kmalloc_cache 100 (cache 512 ∷ cache 64 ∷ cache 128 ∷ []))
kmalloc_cache-Best_example = kmalloc_cache-Best 100 (cache 512 ∷ cache 64 ∷ cache 128 ∷ [])

-- Three pages, of which the first is used.
abbrev pages : PageBlock
pages = record {
  unaligned = 0x10000800;
  start = 0x10001000;
  size = 3;
  used = 1;
  used2 = 0;
  dirty = 0;
  dirty2 = 0;
  pageout = 0;
  pageout2 = 0;
}

abbrev heap : Heap
heap = record {
  store = record { cache = cache 64; slabs = λ p. none };
  table = pages ∷ [];
  next_page = 0xe4003000;
  mappings = [];
}

-- `kmalloc` takes the third page, and the heap is a page longer.
abbrev given : Given
given = record {
  request_slab_desc = λ h. some (0xe4001000, h);
  kmalloc = λ size h. some (
    0xe4002000,
    0 ∷ [],
    record h { table = record pages { used = 7 } ∷ []; next_page = 0xe4005000 },
  );
  new_table = λ i. false;
}

abbrev second_used : Table
second_used = record pages { used = 3 } ∷ []

abbrev heap_256 : Heap
heap_256 = record heap { store = record { cache = cache 256; slabs = λ p. none } }

abbrev asked_256 : Heap
asked_256 = after_mapping heap_256 0x10002000 second_used

abbrev behind_256 : Heap
behind_256 = record asked_256 { table = record pages { used = 7 } ∷ []; next_page = 0xe4005000 }
