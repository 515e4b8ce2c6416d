-- ===== src/Modules.antt =====
-- kernel/modules/modules.c.
pub mod Install
pub mod Exports
pub mod Names
pub mod Steps
pub mod Balance
pub mod Outcome
pub mod Search
mod Tests
