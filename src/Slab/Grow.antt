-- ===== src/Slab/Grow.antt =====
-- `growCache`. The mapping of pages is recorded; the calls that ask other caches for objects are
-- arguments, with what they do to the heap.
use osext.Common.{
  ℕ, zero, suc, ◌+◌, ◌*◌, ◌/◌, ◌%◌, ◌^◌, Bool, true, false, not, ◌||◌, ◌&&◌, ◌==◌, ltb, leb,
  if◌then◌else◌, Option, none, some, List, [], ◌∷◌, ◌++◌,
}
use osext.Common.Words.{add32, mul32}
use osext.Physical.{Table, use_page, use_consecutive_pages}
use osext.Slab.State.{Slab, Store, put}

-- `unlisted` is `addUnlistedKernelPage`, `added` is `addVirtualKernelPage`, and `migrated` is
-- `migrateKernelCPT` with the table of the page with the given number, whose unaligned memory is
-- freed behind it. Where `noncached` is set, the functions for pages that are not cached are called.
pub data Mapping : Type 0 where
  unlisted : (noncached : Bool) (page virtpage : ℕ) → Mapping
  added : (noncached : Bool) (page virtpage : ℕ) → Mapping
  migrated : (address index : ℕ) → Mapping

-- The store of a cache, the table of pages, `kernel_heap_next_page`, and the mappings in their
-- order.
pub record Heap : Type 0 where
  pub store : Store
  pub table : Table
  pub next_page : ℕ
  pub mappings : List Mapping

-- What the calls give: `requestSlabDesc` the address of a descriptor, 0 for `NULL`, and the heap as
-- it is after the call, or `none` for a panic in it; `kmalloc` of a size the address, the bytes that
-- are there and the heap, or `none` for `NULL` or a panic. Both may grow other caches. `new_table`
-- tells for which pages `addUnlistedKernelPage` makes a new table.
pub record Given : Type 0 where
  pub request_slab_desc : Heap → Option (ℕ × Heap)
  pub kmalloc : (size : ℕ) → Heap → Option (ℕ × List ℕ × Heap)
  pub new_table : ℕ → Bool

pub data Growth : Type 0 where
  grown : Heap → Growth
  panics : Growth
  fault : Growth

abbrev pub noncached : ℕ → Bool
noncached flags = flags / 2 ^ 3 % 2 == 1

-- `slab->next = cache->free; cache->free = slab`
unfoldable pub add_free : (p : ℕ) → Slab → Store → Store
add_free p s st = record (put st p (record s { next = st.cache.free })) {
  cache = record (st.cache) { free = p };
}

-- The bytes of a page that is set to 0.
unfoldable pub zero_bytes : ℕ → List ℕ
zero_bytes zero = []
zero_bytes (suc n) = 0 ∷ zero_bytes n

-- Behind the mapping: the page is added to the virtual memory manager.
unfoldable pub publish : (has_table : Bool) → (flags page virtpage index : ℕ) → Mapping
publish has_table flags page virtpage index =
    if has_table
    then migrated (add32 page (4096 * index)) index
    else added (noncached flags) page virtpage

-- The page is in use and mapped, `kernel_heap_next_page` is behind it.
unfoldable pub after_mapping : Heap → (page : ℕ) → Table → Heap
after_mapping h page t = record h {
  table = t;
  next_page = add32 h.next_page 4096;
  mappings = h.mappings ++ (unlisted (noncached h.store.cache.flags) page h.next_page ∷ []);
}

-- The slab `s` with its descriptor at `p` goes into the cache, and the mappings follow.
unfoldable pub enter_slab : (p : ℕ) → Slab → List Mapping → Heap → Heap
enter_slab p s ms h = record h { store = add_free p s h.store; mappings = h.mappings ++ ms }

unfoldable pub small_slab : (start : ℕ) (has_used : Bool) (used : List ℕ) → Slab
small_slab start has_used used = record {
  size = 1;
  start = start;
  next = 0;
  has_used = has_used;
  used = used;
}

-- The descriptor is behind `NULL` where `requestSlabDesc` gives it.
unfoldable pub grow_small : Given → Heap → (page : ℕ) → (t : Table) → Growth
grow_small a h page t =
    let cache = h.store.cache in
    let virtpage = h.next_page in
    let off_slab = not (ltb cache.obj_size 128) || not (cache.flags / 16 % 2 == 0) in
    let entries = publish (a.new_table 0) cache.flags page virtpage 0 ∷ [] in
    let bytes = 4096 / cache.obj_size / 8 + 1 in
    let h' = after_mapping h page t in
    let on_page = small_slab virtpage false (zero_bytes bytes) in
    let elsewhere : Growth = elim (a.request_slab_desc h') [
      | none ↦ panics
      | some r ↦ if r.0 == 0 then fault else elim (a.kmalloc bytes r.1) [
        | none ↦ panics
        | some u ↦ grown (enter_slab r.0 (small_slab virtpage true u.1) entries u.2)
      ]
    ] in
    if off_slab
    then elsewhere
    else if virtpage == 0
    then fault
    else grown (enter_slab virtpage on_page entries h')

-- The mappings of the pages from `index` on, of which `n` are left.
unfoldable pub unlisted_from : (flags page virtpage n index : ℕ) → List Mapping
unlisted_from flags page virtpage zero index = []
unlisted_from flags page virtpage (suc n) index =
    unlisted (noncached flags) (add32 page (4096 * index)) (add32 virtpage (4096 * index))
    ∷ unlisted_from flags page virtpage n (index + 1)

-- The loop has 100 rounds for every size; there is no table for a page that was not mapped.
unfoldable pub publish_from : Given → (flags page virtpage size n index : ℕ) → List Mapping
publish_from a flags page virtpage size zero index = []
publish_from a flags page virtpage size (suc n) index =
    publish (ltb index size && a.new_table index) flags page virtpage index
    ∷ publish_from a flags page virtpage size n (index + 1)

unfoldable pub pages_of : (obj_size : ℕ) → ℕ
pages_of obj_size = if obj_size % 4096 == 0 then obj_size / 4096 else obj_size / 4096 + 1

-- The sizes are those of `struct slab_desc_t` and of the array of used bits.
unfoldable pub grow_large : Given → Heap → (page : ℕ) → (t : Table) → Growth
grow_large a h page t =
    let cache = h.store.cache in
    let virtpage = h.next_page in
    let size = pages_of cache.obj_size in
    let h' : Heap = record h {
      table = t;
      next_page = add32 virtpage (mul32 4096 size);
      mappings = h.mappings ++ unlisted_from cache.flags page virtpage size 0;
    } in
    let entries = publish_from a cache.flags page virtpage size 100 0 in
    let requested : Growth = elim (a.kmalloc 16 h') [
      | none ↦ panics
      | some d ↦ elim (a.kmalloc (mul32 4096 size / cache.obj_size / 8 + 1) d.2) [
        | none ↦ panics
        | some u ↦
            let s : Slab = record {
              size = size;
              start = virtpage;
              next = 0;
              has_used = true;
              used = u.1;
            } in
            grown (enter_slab d.0 s entries u.2)
      ]
    ] in
    if leb 100 size then panics else requested

unfoldable pub grow_cache : Given → Heap → Growth
grow_cache a h =
    if ltb h.store.cache.obj_size 4096
    then elim (use_page h.table) [ none ↦ panics | some r ↦ grow_small a h r.0 r.1 ]
    else elim (use_consecutive_pages (pages_of h.store.cache.obj_size) h.store.cache.alignment
        h.table) [ none ↦ panics | some r ↦ grow_large a h r.0 r.1 ]
