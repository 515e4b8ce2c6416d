-- ===== src/Virtual.antt =====
-- The virtual memory manager, kernel/memory/virtual_MM.c.
pub mod Descriptors
pub mod Space
pub mod Map
pub mod Create
mod Words
pub mod Translate
pub mod Added
pub mod Shares
pub mod Growth
mod Quiet
mod Kept
pub mod Steps
pub mod Created
pub mod Freed
mod Tests
