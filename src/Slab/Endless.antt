-- ===== src/Slab/Endless.antt =====
-- An allocator that does not end.
use osext.Common.{
  ℕ, zero, suc, true, false, ◌&&◌, not, ◌==◌, if◌then◌else◌, ◌≡◌, refl, ◌≢◌, arith, ap, ◌∙◌, inl,
  inr, Bool-cases, sym, Option, none, some,
}
use osext.Slab.State.{on_slab, Slab, Store, put}
use osext.Slab.Objects.{
  full, alloc_object_from_slab, take_object, objects, objects_start, find_unused,
}
use osext.Slab.Cache.{
  out_of_fuel, relink_partial, push_full, then_push_full, retire, next_of, alloc_loop,
  alloc_object_from_cache,
}

-- A slab at the address, without room for an object of the cache.
pub record IsFull (st : Store) (p : ℕ) : Type 0 where
  pub slab : Slab
  pub there : st.slabs p ≡ some slab
  pub no_room : alloc_object_from_slab slab st.cache.obj_size st.cache.flags ≡ full

-- Room does not depend on the links.
take_relinked :
    (s : Slab) (obj_size flags q : ℕ) (r : Option ℕ)
    → take_object s obj_size flags r ≡ full
    → take_object (record s { next = q }) obj_size flags r ≡ full
unfolding take_object
take_relinked s obj_size flags q none h = refl
take_relinked s obj_size flags q (some i) h = absurd (let x : ⊥ = cc in x)

no_room_relinked :
    (s : Slab) (obj_size flags q : ℕ)
    → alloc_object_from_slab s obj_size flags ≡ full
    → alloc_object_from_slab (record s { next = q }) obj_size flags ≡ full
unfolding alloc_object_from_slab objects objects_start
no_room_relinked s obj_size flags q h =
    elim (Bool-cases (not (on_slab obj_size flags) && not s.has_used)) [
      | inl e ↦ absurd (let k = rw e at h in let x : ⊥ = cc in x)
      | inr e ↦ rw e (
          take_relinked s obj_size flags q (find_unused s.used (objects s obj_size flags) 0)
            (rw e at h))
    ]

-- In the second list position: `x` is at the head of the full list, and the loop stands at `y`.
record Stuck (st : Store) (x y : ℕ) : Type 0 where
  x_full : IsFull st x
  y_full : IsFull st y
  differ : x ≢ y
  x_address : x ≢ 0
  y_address : y ≢ 0
  head : st.cache.full ≡ x

-- The store after a round.
after : Store → ℕ → ℕ → Slab → Slab → Store
after st x y s t = record st {
  cache = record (st.cache) { full = y };
  slabs = λ q.
      if q == y
      then some (record t { next = st.cache.full })
      else if q == x
      then some (record s { next = t.next })
      else st.slabs q;
}

relinked :
    (st : Store) (x q : ℕ) (s : Slab)
    → x ≢ 0
    → st.slabs x ≡ some s
    → relink_partial x q st ≡ some (put st x (record s { next = q }))
unfolding relink_partial
relinked st x q s nx there =
    let not_null : (x == 0) ≡ false = ground (arith, nx) in rw (not_null, there)

pushed :
    (st : Store) (p : ℕ) (s : Slab)
    → st.slabs p ≡ some s
    → push_full p st
      ≡ some (record (put st p (record s { next = st.cache.full })) {
        cache = record (st.cache) { full = p };
      })
unfolding push_full
pushed st p s there = rw (there, push_full)

round :
    (st : Store) (x y : ℕ) (k : Stuck st x y)
    → retire x y k.y_full.slab st ≡ some (after st x y k.x_full.slab k.y_full.slab)
unfolding retire then_push_full after
round st x y k =
    let other : (y == x) ≡ false = ground (arith, k.differ) in
    let st' = put st x (record (k.x_full.slab) { next = k.y_full.slab.next }) in
    ap (then_push_full y)
      (relinked st x k.y_full.slab.next k.x_full.slab k.x_address k.x_full.there)
    ∙ pushed st' y k.y_full.slab (rw other k.y_full.there)

same : (n : ℕ) → (n == n) ≡ true
same n = ground arith

next_after : (st : Store) (x y : ℕ) (s t : Slab) → next_of y (after st x y s t) ≡ st.cache.full
unfolding after
next_after st x y s t = rw (same y, next_of)

Stuck-after :
    (st : Store) (x y : ℕ) (k : Stuck st x y) → Stuck (after st x y k.x_full.slab k.y_full.slab) y x
unfolding after
Stuck-after st x y k =
    let other : (x == y) ≡ false = ground (arith, k.differ) in
    record {
      x_full = record {
        slab = record (k.y_full.slab) { next = st.cache.full };
        there = rw (same y);
        no_room =
            no_room_relinked k.y_full.slab st.cache.obj_size st.cache.flags st.cache.full
              k.y_full.no_room;
      };
      y_full = record {
        slab = record (k.x_full.slab) { next = k.y_full.slab.next };
        there = rw (other, same x);
        no_room =
            no_room_relinked k.x_full.slab st.cache.obj_size st.cache.flags k.y_full.slab.next
              k.x_full.no_room;
      };
      differ = λ e. k.differ (sym e);
      x_address = k.y_address;
      y_address = k.x_address;
      head = refl;
    }

alloc_loop-Stuck : (n : ℕ) (st : Store) (x y : ℕ) → Stuck st x y → alloc_loop n x y st ≡ out_of_fuel
unfolding alloc_loop
alloc_loop-Stuck zero st x y k = refl
alloc_loop-Stuck (suc n) st x y k =
    let not_null : (y == 0) ≡ false = ground (arith, k.y_address) in
    rw (not_null, k.y_full.there, k.y_full.no_room, round st x y k)
      (ap (λ p. alloc_loop n y p (after st x y k.x_full.slab k.y_full.slab))
          (next_after st x y k.x_full.slab k.y_full.slab ∙ k.head)
        ∙ alloc_loop-Stuck n (after st x y k.x_full.slab k.y_full.slab) y x (Stuck-after st x y k))

-- The store after the first round, which takes `p` off the partial list.
first_after : Store → ℕ → Slab → Store
first_after st p s = record st {
  cache = record (st.cache) { partial = s.next; full = p };
  slabs = λ q. if q == p then some (record s { next = st.cache.full }) else st.slabs q;
}

first_round :
    (st : Store) (p : ℕ) (f : IsFull st p) → retire 0 p f.slab st ≡ some (first_after st p f.slab)
unfolding retire then_push_full relink_partial push_full first_after
first_round st p f = rw f.there

first-Stuck :
    (st : Store) (p : ℕ) (f : IsFull st p)
    → IsFull st st.cache.full
    → p ≢ 0
    → st.cache.full ≢ 0
    → p ≢ st.cache.full
    → Stuck (first_after st p f.slab) p st.cache.full
unfolding first_after
first-Stuck st p f g np nf ne =
    let other : (st.cache.full == p) ≡ false = ground (arith, ne) in
    record {
      x_full = record {
        slab = record (f.slab) { next = st.cache.full };
        there = rw (same p);
        no_room = no_room_relinked f.slab st.cache.obj_size st.cache.flags st.cache.full f.no_room;
      };
      y_full = record { slab = g.slab; there = rw (other, g.there); no_room = g.no_room };
      differ = ne;
      x_address = np;
      y_address = nf;
      head = refl;
    }

next_first : (st : Store) (p : ℕ) (s : Slab) → next_of p (first_after st p s) ≡ st.cache.full
unfolding first_after
next_first st p s = rw (same p, next_of)

-- When the first slab of the partial list and the first slab of the full list, two different ones,
-- have no room, an allocation from the cache does not end, whatever else the cache holds: no number
-- of rounds of its loop is enough.
pub alloc_object_from_cache-endless :
    (st : Store)
    → IsFull st st.cache.partial
    → IsFull st st.cache.full
    → st.cache.partial ≢ 0
    → st.cache.full ≢ 0
    → st.cache.partial ≢ st.cache.full
    → (fuel : ℕ) → alloc_object_from_cache fuel st ≡ out_of_fuel
unfolding alloc_object_from_cache alloc_loop
alloc_object_from_cache-endless st f g np nf ne zero =
    let not_null : (st.cache.partial == 0) ≡ false = ground (arith, np) in rw not_null
alloc_object_from_cache-endless st f g np nf ne (suc n) =
    let not_null : (st.cache.partial == 0) ≡ false = ground (arith, np) in
    let p = st.cache.partial in
    rw (not_null, f.there, f.no_room, first_round st p f)
      (ap (λ q. alloc_loop n p q (first_after st p f.slab)) (next_first st p f.slab)
        ∙ alloc_loop-Stuck n (first_after st p f.slab) p st.cache.full
            (first-Stuck st p f g np nf ne))
