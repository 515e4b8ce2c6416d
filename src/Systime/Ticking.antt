-- ===== src/Systime/Ticking.antt =====
-- The time that the clock shows after it is set.
use osext.Common.{
  ℕ, zero, suc, ◌+◌, ◌-◌, ◌*◌, ◌/◌, ◌%◌, ◌^◌, ◌<◌, true, false, ltb, ◌==◌, ◌≡◌, refl, ◌∙◌, arith,
}
use osext.Common.Words.{sub32}
use osext.Devices.Registers.{write, rtc_get_value, rtc_set_value, power_enable_device}
use osext.Devices.Timer.{timer_value, timer_set_load, on_module, for_timer, power_timers}
use osext.Systime.Clock.{
  Clock, systime_unix, systime_unix_milli, systime_set_unix, systime_rtc_overflow,
  systime_timer_overflow,
}

-- The handlers of `j` overflows of the timer and of `k` overflows of the RTC.
unfoldable pub overflows : (j k : ℕ) → Clock → Clock
overflows zero zero c = c
overflows zero (suc k) c = systime_rtc_overflow (overflows zero k c)
overflows (suc j) k c = systime_timer_overflow (overflows j k c)

-- The counters of the timer and of the RTC show the given values.
unfoldable pub showing : (timer rtc : ℕ) → Clock → Clock
showing timer rtc c = record c {
  devices = record (on_module 1 (write 1 timer) c.devices) { rtc = write 0 rtc c.devices.rtc };
}

pub overflows_lem :
    (j k : ℕ) (c : Clock)
    → c.timer_milis_overflows + j < 2 ^ 32
    → c.timer_seconds_overflows + k < 2 ^ 32
    → ((overflows j k c).timer_milis_overflows ≡ c.timer_milis_overflows + j)
      × ((overflows j k c).timer_seconds_overflows ≡ c.timer_seconds_overflows + k)
      × ((overflows j k c).devices ≡ c.devices)
unfolding overflows systime_rtc_overflow systime_timer_overflow
overflows_lem zero zero c p q = (omega arith, omega arith, refl)
overflows_lem zero (suc k) c p q =
    let r = overflows_lem zero k c p (omega arith) in (r.0, omega (arith, r.1), r.2)
overflows_lem (suc j) k c p q =
    let r = overflows_lem j k c (omega arith) q in (omega (arith, r.0), r.1, r.2)

pub unix_milli_lem :
    (timer rtc : ℕ) (c : Clock)
    → (systime_unix_milli (showing timer rtc c)).0
      ≡ c.timer_milis_overflows * 2 ^ 32 / 32 + sub32 0xffffffff timer / 32
unfolding systime_unix_milli showing timer_value on_module write
unix_milli_lem timer rtc c = refl

pub unix_lem :
    (timer rtc : ℕ) (c : Clock)
    → systime_unix (showing timer rtc c) ≡ c.timer_seconds_overflows * 2 ^ 32 + rtc
unfolding systime_unix showing write rtc_get_value
unix_lem timer rtc c = refl

pub set_unix_lem :
    (t : ℕ) (c : Clock)
    → 0 < t
    → t * 1000 < 2 ^ 57
    → ((systime_set_unix t c).timer_milis_overflows ≡ t * 1000 / 2 ^ 27)
      × ((systime_set_unix t c).timer_seconds_overflows ≡ t / 2 ^ 32)
      × ((systime_set_unix t c).devices.timers 1 0 + t * 1000 % 2 ^ 27 * 32 ≡ 2 ^ 32 - 1)
      × ((systime_set_unix t c).devices.rtc 2 ≡ t % 2 ^ 32)
unfolding systime_set_unix rtc_set_value write timer_set_load for_timer on_module power_timers
    power_enable_device
set_unix_lem t c p q =
    let zero : (t == 0) ≡ false = ground arith in
    let small : ltb t (2 ^ 63) ≡ true = ground arith in
    rw (zero, small) (omega arith, refl, omega arith, refl)

-- Where `systime_set_unix` sets a positive time, and the timer then counts down by `n` ticks, of
-- which 32 are a millisecond, with `j` overflows, and the RTC counts up by `s` seconds with `k`
-- overflows, `systime_unix` is the time that was set and `s` seconds, and `systime_unix_milli` is
-- that time in milliseconds and `n / 32`.
pub systime_set_unix-ticking :
    (t n j s k timer rtc : ℕ) (c : Clock)
    → 0 < t
    → t * 1000 < 2 ^ 57
    → j < 2 ^ 30
    → k < 2 ^ 30
    → timer < 2 ^ 32
    → rtc < 2 ^ 32
    → timer + n ≡ (systime_set_unix t c).devices.timers 1 0 + j * 2 ^ 32
    → rtc + k * 2 ^ 32 ≡ (systime_set_unix t c).devices.rtc 2 + s
    → (systime_unix (showing timer rtc (overflows j k (systime_set_unix t c))) ≡ t + s)
      × ((systime_unix_milli (showing timer rtc (overflows j k (systime_set_unix t c)))).0
          ≡ t * 1000 + n / 32)
systime_set_unix-ticking t n j s k timer rtc c p q hj hk ht hr eqt eqr =
    let c' = systime_set_unix t c in
    let f = set_unix_lem t c p q in
    let o = overflows_lem j k c' (omega (arith, f.0)) (omega (arith, f.1)) in
    (
      unix_lem timer rtc (overflows j k c') ∙ omega (arith, o.1, f.1, f.3, eqr),
      unix_milli_lem timer rtc (overflows j k c') ∙ omega (arith, o.0, f.0, f.2, eqt),
    )
