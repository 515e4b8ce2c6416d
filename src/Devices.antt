-- ===== src/Devices.antt =====
-- Register accesses in kernel/drivers: timer.c, irq_controller.c, power.c, rtc.c and watchdog.c.
pub mod Registers
pub mod Timer
pub mod Access
pub mod Watchdog
pub mod Masks
pub mod Resume
pub mod Settings
mod Tests
