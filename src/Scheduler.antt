-- ===== src/Scheduler.antt =====
-- The kernel threads: kernel/scheduling/scheduler.c, and the constructor of
-- kernel/scheduling/thread.c.
pub mod State
pub mod Schedule
pub mod Calls
pub mod Ring
pub mod Searches
pub mod Choose
pub mod Keep
pub mod Release
pub mod Leave
pub mod Timer
mod Tests
