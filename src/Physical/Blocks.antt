-- ===== src/Physical/Blocks.antt =====
-- Adding and removing blocks.
use osext.Common.{
  ℕ, ◌+◌, ◌*◌, ◌^◌, ◌≤◌, ◌<◌, true, false, ◌==◌, ◌≡◌, ◌≢◌, arith, ap, ◌∙◌, ◌⊎◌, List, [], ◌∷◌, some,
  length, map, ◌++◌,
}
use mathlib.Core.List.{append_assoc, append-nil}
use osext.Physical.{
  PageBlock, Table, Outcome, fresh_block, remove_pageblock, free_pageblock, free_all_loop,
  free_all_pageblocks,
}
use osext.Physical.Valid.{IsTable, SeparateAll}

-- What `ti_malloc` is relied on for: an address that is not 0 has that many bytes below the end
-- of the address space, and none of the bytes is part of an earlier allocation.
abbrev pub GivesMemory : (ℕ → ℕ) → ℕ → Table → Type 0
GivesMemory ti_malloc size t =
    let u = ti_malloc (4096 * (size + 3)) in
    u ≢ 0 → (u + 4096 * (size + 3) ≤ 2 ^ 32) × SeparateAll (fresh_block u size) t

-- The results of `allocPageblock`.
pub data Allocated (size u : ℕ) (t : Table) : Outcome → Type 0 where
  refused :
      (128 < size) ⊎ (u ≡ 0) → Allocated size u t (record { done = false; table = t; freed = [] })
  no_room :
      size ≤ 128
      → u ≢ 0
      → 196 ≤ length t
      → Allocated size u t (record { done = false; table = t; freed = u ∷ [] })
  added :
      size ≤ 128
      → u ≢ 0
      → length t < 196
      → IsTable (t ++ fresh_block u size ∷ [])
      → Allocated size u t
          (record { done = true; table = t ++ fresh_block u size ∷ []; freed = [] })

==_self : (n : ℕ) → (n == n) ≡ true
==_self n = ground arith

free_pageblock-head :
    (b : PageBlock) (t : Table) (freed : List ℕ)
    → free_pageblock b (b ∷ t) freed ≡ (t, freed ++ b.unaligned ∷ [])
unfolding free_pageblock remove_pageblock
free_pageblock-head b t freed = rw (==_self b.unaligned)

free_all_loop_lem :
    (t : Table) (freed : List ℕ)
    → free_all_loop (length t) t freed ≡ some (freed ++ map (λ b. b.unaligned) t)
unfolding free_all_loop
free_all_loop_lem [] freed = simp append-nil
free_all_loop_lem (b ∷ t) freed =
    ap (λ (r : Table × List ℕ). free_all_loop (length t) r.0 r.1) (free_pageblock-head b t freed)
    ∙ free_all_loop_lem t (freed ++ b.unaligned ∷ [])
    ∙ ap some (append_assoc freed (b.unaligned ∷ []) (map (λ c. c.unaligned) t))

-- `freeAllPageblocks` ends, and gives the memory of every block back once, in order.
pub free_all_pageblocks_lem : (t : Table) → free_all_pageblocks t ≡ some (map (λ b. b.unaligned) t)
unfolding free_all_pageblocks
free_all_pageblocks_lem t = free_all_loop_lem t []
