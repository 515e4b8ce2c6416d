-- ===== src/Devices/Watchdog.antt =====
-- kernel/drivers/watchdog.c. Each change of a register is between two writes of the lock register
-- at index 0x300.
use osext.Common.{ℕ, ◌%◌, Bool, false, ◌==◌, if◌then◌else◌, bit_or}
use osext.Common.Words.{mul32}
use osext.Devices.Registers.{
  Devices, write, and_not, vic_enable, vic_disable, vic_set_fiq, vic_set_irq, power_enable_device,
}

-- The variables of the file, and the devices.
pub record Watchdog : Type 0 where
  pub oneshot : Bool
  pub reset : Bool
  pub usr_expired : Bool
  pub function : ℕ
  pub devices : Devices

pub record WatchdogState : Type 0 where
  pub load : ℕ
  pub control : ℕ

unfoldable pub unlocked : (f : (ℕ → ℕ) → ℕ → ℕ) → Devices → Devices
unlocked f d = record d { watchdog = write 0x300 0 (f (write 0x300 0x1acce551 d.watchdog)) }

unfoldable pub powered : (f : (ℕ → ℕ) → ℕ → ℕ) → Devices → Devices
powered f d = unlocked f (power_enable_device 13 d)

unfoldable pub watchdog_save_state : Devices → WatchdogState × Devices
watchdog_save_state d =
    let saved : WatchdogState = record { load = d.watchdog 0; control = d.watchdog 2 } in
    (saved, power_enable_device 13 d)

unfoldable pub watchdog_resume_state : WatchdogState → Devices → Devices
watchdog_resume_state state d =
    powered (λ registers. write 2 state.control (write 0 state.load (write 2 0 registers))) d

unfoldable pub watchdog_return_os : WatchdogState → Devices → Devices
watchdog_return_os state d =
    vic_enable 3 (watchdog_resume_state state (vic_set_irq 3 (vic_disable 3 d)))

-- The value of the control register that is written.
unfoldable pub enable_control : (reset : Bool) → (ℕ → ℕ) → ℕ → ℕ
enable_control reset registers =
    let started = write 2 (bit_or (and_not (registers 2) 0x3) 0x1) registers in
    if reset then write 2 (bit_or (and_not (started 2) 0x3) 0x3) started else started

unfoldable pub watchdog_enable : Watchdog → Watchdog
watchdog_enable w = record w {
  devices = powered (enable_control w.reset) (vic_enable 3 (vic_set_fiq 3 w.devices));
}

-- Reading a register enables the device 13 too.
unfoldable pub awake : Watchdog → Watchdog
awake w = record w { devices = power_enable_device 13 w.devices }

unfoldable pub watchdog_enabled : Watchdog → Bool × Watchdog
watchdog_enabled w = (w.devices.watchdog 2 % 2 == 1, awake w)

unfoldable pub watchdog_disable : Watchdog → Watchdog
watchdog_disable w = record w {
  devices =
      powered (λ registers. write 2 (and_not (registers 2) 0x3) registers)
        (vic_set_irq 3 (vic_disable 3 w.devices));
}

unfoldable pub watchdog_value : Watchdog → ℕ × Watchdog
watchdog_value w = (w.devices.watchdog 1, awake w)

unfoldable pub watchdog_load : Watchdog → ℕ × Watchdog
watchdog_load w = (w.devices.watchdog 0, awake w)

unfoldable pub watchdog_set_load : (load : ℕ) → Watchdog → Watchdog
watchdog_set_load load w = record w { devices = powered (write 0 load) w.devices }

unfoldable pub watchdog_set_period : (milis : ℕ) → Watchdog → Watchdog
watchdog_set_period milis w = record w { devices = powered (write 0 (mul32 33000 milis)) w.devices }

unfoldable pub watchdog_set_period_micro : (micro : ℕ) → Watchdog → Watchdog
watchdog_set_period_micro micro w = record w {
  devices = powered (write 0 (mul32 33 micro)) w.devices;
}

unfoldable pub watchdog_irq_status : Watchdog → Bool × Watchdog
watchdog_irq_status w = (w.devices.watchdog 5 == 1, awake w)

unfoldable pub watchdog_irq_clear : Watchdog → Watchdog
watchdog_irq_clear w =
    let cleared = record w { devices = powered (write 3 0xffffffff) w.devices } in
    if w.oneshot then watchdog_disable cleared else cleared

unfoldable pub watchdog_set_reset : (reset : Bool) → Watchdog → Watchdog
watchdog_set_reset reset w = record w {
  reset = reset;
  devices =
      powered
        (λ registers.
          write 2
            (if reset then bit_or (and_not (registers 2) 0x3) 0x2 else and_not (registers 2) 0x2)
            registers)
        w.devices;
}

unfoldable pub watchdog_set_oneshot : (oneshot : Bool) → Watchdog → Watchdog
watchdog_set_oneshot oneshot w = record w { oneshot = oneshot }

unfoldable pub watchdog_set_function : (func : ℕ) → Watchdog → Watchdog
watchdog_set_function func w = record w { function = func }

-- The fast interrupts, which are disabled for the time of the write, are as before afterwards.
unfoldable pub watchdog_clear_usr_expired : Watchdog → Watchdog
watchdog_clear_usr_expired w = record w { usr_expired = false }
