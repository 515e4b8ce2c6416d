-- ===== src/Libk.antt =====
-- kernel/libk: memory.c, math.c and string.c.
pub mod Memory
pub mod Strings
pub mod Numbers
pub mod MemoryLaws
pub mod Compare
pub mod Print
pub mod Printf
pub mod Text
pub mod Inside
mod Tests
