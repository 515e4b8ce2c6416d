-- ===== src/Sync.antt =====
-- kernel/scheduling/lock.c and deferred_action.c, and kernel/libk/mutex.c and modes.c.
pub mod Interrupts
pub mod Lock
pub mod Mutex
pub mod Actions
pub mod Counting
pub mod Exclusion
pub mod Repeated
mod Tests
