-- ===== src/Slab.antt =====
-- The slab allocator, kernel/memory/slab.c.
pub mod State
pub mod Objects
pub mod Cache
pub mod Kmalloc
pub mod Bits
pub mod ObjectLaws
pub mod Endless
pub mod BestFit
pub mod Grow
pub mod Grown
mod Ends
mod Tests
