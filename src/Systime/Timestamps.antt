-- ===== src/Systime/Timestamps.antt =====
-- What a timestamp says of a time.
use osext.Common.{ℕ, ◌+◌, ◌-◌, ◌*◌, ◌^◌, ◌≤◌, ◌<◌, false, ◌==◌, ◌≡◌, refl, arith, ap, sym}
use mathlib.Core.Path.{subst}
use osext.Systime.Calendar.{
  days_in_month, add_months, timestamp_to_unix, year_seconds, month_seconds, Timestamp, written,
  minutes_loop, hours_loop, days_loop, months_loop, unix_to_timestamp,
}
use osext.Systime.Walk.{
  span, Walked, walk-Walked, span_const, le-span_const, month_seconds_le, span_years, span_months,
}

-- The fields lie in their ranges, but that the seconds run from 1 to 60, and they make up the time.
pub record Denotes (t : Timestamp) (unix : ℕ) : Type 0 where
  pub from_1970 : 1970 ≤ t.year
  pub month_pos : 1 ≤ t.month
  pub month_le : t.month ≤ 12
  pub day_pos : 1 ≤ t.day
  pub day_le : t.day ≤ days_in_month t.year t.month
  pub hour_lt : t.hour < 24
  pub minute_lt : t.minute < 60
  pub second_pos : 1 ≤ t.second
  pub second_le : t.second ≤ 60
  pub total :
      unix
      ≡ span year_seconds 1970 (t.year - 1970)
        + span (month_seconds t.year) 1 (t.month - 1)
        + (t.day - 1) * 86400
        + t.hour * 3600
        + t.minute * 60
        + t.second

month_seconds_lem : (y m : ℕ) → month_seconds y m ≡ days_in_month y m * 24 * 60 * 60
unfolding month_seconds
month_seconds_lem y m = refl

minus_plus : (a b : ℕ) → a + b - a ≡ b
minus_plus a b = omega arith

-- The five loops of a call.
module _ (fuel unix : ℕ) (y : Walked year_seconds fuel unix 1970)
    (m : Walked (month_seconds (1970 + y.steps)) 12 y.rest 1) (d : Walked (λ _. 86400) 31 m.rest 1)
    (h : Walked (λ _. 3600) 24 d.rest 0) (i : Walked (λ _. 60) 60 h.rest 0) where
  abbrev found : Timestamp
  found = record {
    year = 1970 + y.steps;
    month = 1 + m.steps;
    day = 1 + d.steps;
    hour = 0 + h.steps;
    minute = 0 + i.steps;
    second = i.rest;
  }

  loops_written : 0 < unix → unix_to_timestamp fuel unix ≡ written found
  unfolding unix_to_timestamp months_loop days_loop hours_loop minutes_loop
  loops_written p =
      let null : (unix == 0) ≡ false = ground arith in
      rw
        (
          null, y.result, months_loop, m.result, days_loop, d.result, hours_loop, h.result,
          minutes_loop, i.result,
        )
        refl

  loops-Denotes : Denotes found unix
  loops-Denotes = record {
    from_1970 = omega arith;
    month_pos = omega arith;
    month_le = omega (arith, m.enough);
    day_pos = omega arith;
    day_le = omega (
      arith,
      d.total,
      span_const 86400 1 d.steps,
      d.rest_pos,
      m.rest_le,
      month_seconds_lem (1970 + y.steps) (1 + m.steps),
    );
    hour_lt = omega (arith, h.enough);
    minute_lt = omega (arith, i.enough);
    second_pos = i.rest_pos;
    second_le = i.rest_le;
    total = omega (
      arith,
      y.total,
      m.total,
      d.total,
      h.total,
      i.total,
      span_const 86400 1 d.steps,
      span_const 3600 0 h.steps,
      span_const 60 0 i.steps,
      ap (span year_seconds 1970) (minus_plus 1970 y.steps),
      ap (span (month_seconds (1970 + y.steps)) 1) (minus_plus 1 m.steps),
    );
  }

year-Walked : (y rest : ℕ) → 0 < rest → rest ≤ year_seconds y → Walked (month_seconds y) 12 rest 1
year-Walked y rest p h =
    walk-Walked (month_seconds y) 12 rest 1 p (subst (λ x. rest ≤ x) (sym (span_months y)) h)
      (omega arith)

month_rest : (y m rest : ℕ) → rest ≤ month_seconds y m → rest ≤ span (λ _. 86400) 1 31
month_rest y m rest h = le-span_const 86400 1 31 rest (omega (arith, h, month_seconds_le y m))

-- For a time after the beginning of 1970 and a fuel, at most 2^31, of at least the time in years of
-- 365 days, a timestamp is written: its month lies in 1 to 12, its day in 1 to the days of the
-- month, its hour in 0 to 23, its minute in 0 to 59 and its second in 1 to 60, and the seconds of
-- the years since 1970, of the months before, of the days before and of the fields of the day make
-- up the time.
pub unix_to_timestamp-Denotes :
    (fuel unix : ℕ)
    → 0 < unix
    → unix ≤ fuel * 31536000
    → fuel ≤ 2 ^ 31
    → (t : Timestamp) × (unix_to_timestamp fuel unix ≡ written t) × Denotes t unix
unix_to_timestamp-Denotes fuel unix p enough small =
    let y =
      walk-Walked year_seconds fuel unix 1970 p (omega (arith, enough, span_years 1970 fuel))
        (omega arith) in
    let m = year-Walked (1970 + y.steps) y.rest y.rest_pos y.rest_le in
    let d =
      walk-Walked (λ _. 86400) 31 m.rest 1 m.rest_pos
        (month_rest (1970 + y.steps) (1 + m.steps) m.rest m.rest_le) (omega arith) in
    let h =
      walk-Walked (λ _. 3600) 24 d.rest 0 d.rest_pos (le-span_const 3600 0 24 d.rest d.rest_le)
        (omega arith) in
    let i =
      walk-Walked (λ _. 60) 60 h.rest 0 h.rest_pos (le-span_const 60 0 60 h.rest h.rest_le)
        (omega arith) in
    (
      found fuel unix y m d h i,
      loops_written fuel unix y m d h i p,
      loops-Denotes fuel unix y m d h i,
    )

-- Of a date and time in January 1970, with its day, hour and minute in their ranges,
-- `systime_timestamp_to_unix` makes the time 32 days later.
pub timestamp_to_unix-January_1970 :
    (day hour minute second : ℕ)
    → 1 ≤ day
    → day ≤ 31
    → hour < 24
    → minute < 60
    → timestamp_to_unix 1970 1 day hour minute second
      ≡ (day - 1) * 86400 + hour * 3600 + minute * 60 + second + 32 * 86400
unfolding timestamp_to_unix add_months days_in_month
timestamp_to_unix-January_1970 day hour minute second p q h m = omega arith
