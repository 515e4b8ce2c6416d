-- ===== src/Systime.antt =====
-- The clock and the calendar of kernel/drivers/systime.c.
pub mod Calendar
pub mod Seconds
pub mod Clock
pub mod Ticking
mod Walk
pub mod Timestamps
mod Tests
