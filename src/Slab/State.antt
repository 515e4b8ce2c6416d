-- ===== src/Slab/State.antt =====
-- `struct slab_desc_t` and `struct cache_t` of kernel/memory/slab.h, in a store.
use osext.Common.{
  ℕ, ◌+◌, ◌*◌, ◌/◌, ◌%◌, ◌^◌, Bool, ◌&&◌, Option, some, List, ltb, ◌==◌, if◌then◌else◌,
}

-- `used` holds the bytes of the used bits. They lie behind the descriptor if that is on the slab,
-- and otherwise where the field `used` of the source points, which is `NULL` if `has_used` is false.
pub record Slab : Type 0 where
  pub size : ℕ
  pub start : ℕ
  pub next : ℕ
  pub has_used : Bool
  pub used : List ℕ

-- `full`, `partial` and `free` are the addresses of the first slabs, 0 for `NULL`.
pub record Cache : Type 0 where
  pub full : ℕ
  pub partial : ℕ
  pub free : ℕ
  pub obj_size : ℕ
  pub alignment : ℕ
  pub flags : ℕ

-- A cache with the slab descriptors that exist, by their addresses.
pub record Store : Type 0 where
  pub cache : Cache
  pub slabs : ℕ → Option Slab

abbrev pub put : Store → ℕ → Slab → Store
put st p s = record st { slabs = λ q. if q == p then some s else st.slabs q }

-- `(flags & CACHE_SLAB_DESC_OFF_SLAB) == 0` and `(flags & CACHE_NO_MALLOC) != 0`
abbrev pub desc_off_slab : ℕ → Bool
desc_off_slab flags = flags / 16 % 2 == 1

abbrev pub no_malloc : ℕ → Bool
no_malloc flags = flags % 2 == 1

-- The descriptor, with the used bits behind it, lies on the slab.
abbrev pub on_slab : ℕ → ℕ → Bool
on_slab obj_size flags = ltb obj_size 128 && (flags / 16 % 2 == 0)

-- kernel/libk/memory.c
unfoldable pub align_4_bytes : ℕ → ℕ
align_4_bytes adr = if adr % 4 == 0 then adr else (adr / 4 * 4 + 4) % 2 ^ 32
