-- ===== src/Systime/Tests.antt =====
-- The clock and the calendar at concrete times.
use osext.Common.{◌+◌, ◌-◌, ◌*◌, ◌/◌, ◌^◌, ◌≡◌, refl, arith}
use osext.Devices.Registers.{write, rtc_set_value, power_enable_device}
use osext.Devices.Timer.{timer_set_load, timer_value, for_timer, on_module, power_timers}
use osext.Systime.Clock.{
  Clock, systime_unix, systime_unix_milli, systime_set_unix, systime_set_unix_milli,
}
use osext.Systime.Ticking.{overflows, showing, systime_set_unix-ticking}
use osext.Systime.Calendar.{
  days_in_month, days_in_year, walk, year_seconds, month_seconds, Timestamp, written, minutes_loop,
  hours_loop, days_loop, months_loop, unix_to_timestamp,
}
use osext.Systime.Timestamps.{Denotes, unix_to_timestamp-Denotes}

-- Two days after the beginning of 1970, the timestamp is that of the 60th second of the last minute
-- of the second day.
midnight :
    unix_to_timestamp 5 172800
    ≡ written (record { year = 1970; month = 1; day = 2; hour = 23; minute = 59; second = 60 })
unfolding unix_to_timestamp months_loop days_loop hours_loop minutes_loop walk year_seconds
    month_seconds days_in_year days_in_month
midnight = refl

-- The 29th of February 2000, 0:00:01
leap_day :
    unix_to_timestamp 40 951782401
    ≡ written (record { year = 2000; month = 2; day = 29; hour = 0; minute = 0; second = 1 })
unfolding unix_to_timestamp months_loop days_loop hours_loop minutes_loop walk year_seconds
    month_seconds days_in_year days_in_month
leap_day = refl

unix_to_timestamp-Denotes_example :
    (t : Timestamp) × (unix_to_timestamp 40 951782401 ≡ written t) × Denotes t 951782401
unix_to_timestamp-Denotes_example =
    unix_to_timestamp-Denotes 40 951782401 (omega arith) (omega arith) (omega arith)

abbrev stopped : Clock
stopped = record {
  timer_milis_overflows = 0;
  timer_seconds_overflows = 0;
  devices = record {
    timers = λ m i. 0;
    vic = λ i. 0;
    power = λ i. 0;
    rtc = λ i. 0;
    watchdog = λ i. 0;
  };
}

-- `systime_set_unix_milli` does not set the overflows, so that the milliseconds lack the seconds.
lost_seconds :
    (systime_unix_milli
      (showing (2 ^ 32 - 1 - 7 * 32) 5000 (systime_set_unix_milli 5000007 stopped))).0
    ≡ 7
unfolding systime_unix_milli showing systime_set_unix_milli timer_value timer_set_load for_timer
    on_module power_timers write rtc_set_value power_enable_device
lost_seconds = refl

-- The seconds pass the end of the RTC's counter, and the timer that of its own.
systime_set_unix-ticking_example :
    (systime_unix (showing 4294935295 1 (overflows 1 1 (systime_set_unix 4294967295 stopped)))
      ≡ 4294967295 + 2)
    × ((systime_unix_milli
          (showing 4294935295 1 (overflows 1 1 (systime_set_unix 4294967295 stopped)))).0
        ≡ 4294967295 * 1000 + 64000 / 32)
unfolding systime_set_unix timer_set_load for_timer on_module power_timers write rtc_set_value
    power_enable_device
systime_set_unix-ticking_example =
    systime_set_unix-ticking 4294967295 64000 1 2 1 4294935295 1 stopped (omega arith) (omega arith)
      (omega arith) (omega arith) (omega arith) (omega arith) refl refl
