-- ===== src/Devices/Tests.antt =====
-- Tests of the devices, and the theorems on concrete registers.
use osext.Common.{ℕ, ◌+◌, ◌*◌, ◌==◌, true, false, some, ◌%◌, if◌then◌else◌, ◌≡◌, refl, arith}
use osext.Devices.Registers.{
  Devices, write, one_bit, and_not, vic_disable, vic_set_irq, vic_enable, vic_set_fiq, vic_is_fiq,
  power_enable_device, power_disable_device, power_device_powered,
}
use osext.Devices.Timer.{
  TimerState, timer_save_state, timer_resume_state, timer_set_size, timer_set_prescaler,
  timer_set_mode, timer_enable, timer_irq_enabled, change, on_module, power_timers,
}
use osext.Devices.Masks.{with_field}
use osext.Devices.Resume.{timer_resume_state-timer_save_state}
use osext.Devices.Settings.{change_settings_lem}
use osext.Devices.Watchdog.{
  Watchdog, watchdog_set_load, watchdog_load, watchdog_enable, watchdog_enabled, watchdog_irq_clear,
  watchdog_disable, powered, unlocked, enable_control,
}

-- Each register holds its index, and a control register of a timer is enabled.
abbrev devices : Devices
devices = record {
  timers = λ m i. i + 0xf0;
  vic = λ i. i;
  power = λ i. i;
  rtc = λ i. i;
  watchdog = λ i. i;
}

abbrev others : Devices
others = record { timers = λ m i. m; vic = λ i. 0; power = λ i. 0; rtc = λ i. 0; watchdog = λ i. 0 }

abbrev watchdog : Watchdog
watchdog = record {
  oneshot = true;
  reset = false;
  usr_expired = false;
  function = 0;
  devices = devices;
}

fiq_of_irq : vic_is_fiq 9 (vic_set_fiq 9 devices) ≡ true
unfolding vic_is_fiq vic_set_fiq write one_bit
fiq_of_irq = refl

powered_device :
    power_device_powered 7 (power_enable_device 7 (power_disable_device 7 devices)) ≡ true
unfolding power_device_powered power_enable_device power_disable_device write and_not one_bit
powered_device = refl

enabled_timer : (timer_irq_enabled 1 1 (timer_enable 1 1 others)).0 ≡ true
unfolding timer_irq_enabled timer_enable on_module change write vic_enable vic_set_fiq power_timers
    power_enable_device
enabled_timer = refl

started_watchdog : (watchdog_enabled (watchdog_enable watchdog)).0 ≡ true
unfolding watchdog_enabled watchdog_enable powered unlocked write enable_control and_not
    power_enable_device vic_enable vic_set_fiq
started_watchdog = refl

stopped_watchdog : (watchdog_enabled (watchdog_irq_clear (watchdog_enable watchdog))).0 ≡ false
unfolding watchdog_enabled watchdog_irq_clear watchdog_enable watchdog_disable powered unlocked
    write and_not power_enable_device vic_set_irq vic_disable enable_control vic_enable vic_set_fiq
stopped_watchdog = refl

loaded_watchdog : (watchdog_load (watchdog_set_load 1234 watchdog)).0 ≡ 1234
unfolding watchdog_load watchdog_set_load powered unlocked write
loaded_watchdog = refl

timer_resume_state-timer_save_state_example :
    (state : TimerState) × (((timer_save_state 1 1 devices).0 ≡ some state)
      × ((m i : ℕ)
          → (timer_resume_state 1 1 state others).timers m i ≡ (
              if m == 1
              then (if i == 0 + 1 * 8
                  then devices.timers 1 (0 + 1 * 8)
                  else if i == 2 + 1 * 8
                  then devices.timers 1 (2 + 1 * 8)
                  else if i == 6 + 1 * 8
                  then devices.timers 1 (6 + 1 * 8)
                  else others.timers m i)
              else others.timers m i)))
timer_resume_state-timer_save_state_example =
    timer_resume_state-timer_save_state 1 1 devices others (omega arith) (omega arith) (omega arith)

change_settings_lem_example :
    ((size : ℕ)
      → (timer_set_size 2 1 size devices).timers 2 10
        ≡ change 10 (with_field 0x2 (size % 2 * 2)) (devices.timers 2) 10)
    × ((prescale : ℕ)
        → (timer_set_prescaler 2 1 prescale devices).timers 2 10
          ≡ change 10 (with_field 0xc (prescale % 4 * 4)) (devices.timers 2) 10)
    × ((mode : ℕ)
        → (timer_set_mode 2 1 mode devices).timers 2 10
          ≡ change 10 (with_field 0x40 (mode % 2 * 64)) (devices.timers 2) 10)
change_settings_lem_example =
    change_settings_lem 2 1 devices (omega arith) (omega arith) (omega arith) 10
