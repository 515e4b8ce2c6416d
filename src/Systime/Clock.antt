-- ===== src/Systime/Clock.antt =====
-- The clock of kernel/drivers/systime.c, on the registers of the timer and of the RTC.
use osext.Common.{ℕ, ◌+◌, ◌-◌, ◌*◌, ◌/◌, ◌%◌, ◌^◌, false, ltb, ◌==◌, if◌then◌else◌}
use osext.Common.Words.{add32, sub32, mul32}
use osext.Devices.Registers.{Devices, rtc_get_value, rtc_set_value, rtc_claim, rtc_set_alarm}
use osext.Devices.Timer.{
  timer_disable, timer_set_clockselect, timer_set_prescaler, timer_set_mode, timer_set_oneshot,
  timer_set_size, timer_set_load, timer_enable, timer_value,
}

pub record Clock : Type 0 where
  pub timer_milis_overflows : ℕ
  pub timer_seconds_overflows : ℕ
  pub devices : Devices

unfoldable pub systime_rtc_overflow : Clock → Clock
systime_rtc_overflow c = record c { timer_seconds_overflows = add32 c.timer_seconds_overflows 1 }

unfoldable pub systime_timer_overflow : Clock → Clock
systime_timer_overflow c = record c { timer_milis_overflows = add32 c.timer_milis_overflows 1 }

-- An `int64_t` is given by its 64 bits. From 2 ^ 31 overflows on, the products of this function and
-- the next leave `int64_t`, and C does not say what they are.
unfoldable pub systime_unix : Clock → ℕ
systime_unix c = c.timer_seconds_overflows * 2 ^ 32 + rtc_get_value c.devices

-- The time, and the clock after the timer is read.
unfoldable pub systime_unix_milli : Clock → ℕ × Clock
systime_unix_milli c =
    let read = timer_value 1 0 c.devices in
    (
      c.timer_milis_overflows * 2 ^ 32 / 32 + sub32 0xffffffff read.0 / 32,
      record c { devices = read.1 },
    )

-- `unix_time_milis <= 0` is a test of the sign.
unfoldable pub systime_set_unix_milli : (unix_time_milis : ℕ) → Clock → Clock
systime_set_unix_milli unix_time_milis c =
    let seconds = unix_time_milis / 1000 in
    let milis_remaining = unix_time_milis - seconds * 1000 in
    let unix_time = unix_time_milis / 1000 in
    let set = record c {
      timer_seconds_overflows = unix_time / 2 ^ 32;
      devices =
          rtc_set_value (unix_time % 2 ^ 32)
            (timer_set_load 1 0 (0xffffffff - milis_remaining * 32) c.devices);
    } in
    if unix_time_milis == 0 then c else if ltb unix_time_milis (2 ^ 63) then set else c

-- The product with 1000 has to be an `int64_t`, too.
unfoldable pub systime_set_unix : (unix_time : ℕ) → Clock → Clock
systime_set_unix unix_time c =
    let milis_remaining = unix_time * 1000 % 2 ^ 27 % 2 ^ 32 in
    let set = record c {
      timer_milis_overflows = unix_time * 1000 / 2 ^ 27 % 2 ^ 32;
      timer_seconds_overflows = unix_time / 2 ^ 32;
      devices =
          timer_set_load 1 0 (sub32 0xffffffff (mul32 milis_remaining 32))
            (rtc_set_value (unix_time % 2 ^ 32) c.devices);
    } in
    if unix_time == 0 then c else if ltb unix_time (2 ^ 63) then set else c

unfoldable pub systime_init : Clock → Clock
systime_init c =
    let timer = timer_enable 1 0 (
      timer_set_load 1 0 0xffffffff (
        timer_set_size 1 0 1 (
          timer_set_oneshot 1 0 false (
            timer_set_mode 1 0 0 (
              timer_set_prescaler 1 0 0
                (timer_set_clockselect 1 0 0xa (timer_disable 1 0 c.devices))))))) in
    let c' = record c { devices = rtc_set_alarm 0 (rtc_claim timer) } in
    systime_set_unix (systime_unix c') c'
