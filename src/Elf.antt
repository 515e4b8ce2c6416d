-- ===== src/Elf.antt =====
-- kernel/elf/elf.c.
pub mod Header
pub mod Image
pub mod Sections
pub mod Pages
pub mod Agree
pub mod Assembled
pub mod Got
pub mod Bounds
pub mod Sample
mod Tests
