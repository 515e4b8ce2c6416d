-- ===== src/Systime/Seconds.antt =====
-- A closed form of `systime_timestamp_to_unix` for the years from 1970 to 2040.
use osext.Common.{
  ℕ, zero, suc, ◌+◌, ◌-◌, ◌*◌, ◌/◌, ◌%◌, ◌≤◌, false, ltb, ◌==◌, if◌then◌else◌, ◌≡◌, ap, Bool-cases,
  ==_iff, inl, inr, arith,
}
use osext.Common.Words.{mul32}
use osext.Systime.Calendar.{days_in_month, days_in_year, add_months, add_years, timestamp_to_unix}

unfoldable pub leap_days : ℕ → ℕ
leap_days year = if year % 4 == 0 then 1 else 0

-- February has 28 days or 29. The other months have 31 where they are odd up to July and where they
-- are even from August on.
unfoldable pub month_days : (year month : ℕ) → ℕ
month_days year month = if month == 2 then 28 + leap_days year else 30 + (month + month / 8) % 2

-- 365 days for each year from 1970 to the one before `year`, one day for each leap year from 1971 to
-- `year`, `month` months as long as the given one, and `day` days.
unfoldable pub counted_days : (year month day : ℕ) → ℕ
counted_days year month day =
    (year - 1970) * 365 + (year - 1968) / 4 + month * month_days year month + day

days_in_month-month_days :
    (year month : ℕ)
    → 1970 ≤ year
    → year ≤ 2040
    → 1 ≤ month
    → month ≤ 12
    → days_in_month year month ≡ month_days year month
unfolding days_in_month month_days leap_days
days_in_month-month_days year month y y' m m' = ground arith

days_in_year-leap :
    (n : ℕ) → suc n ≤ 70 → days_in_year (1970 + suc n) + (n + 2) / 4 ≡ 365 + (suc n + 2) / 4
unfolding days_in_year
days_in_year-leap n l = ground arith

add_months_lem :
    (year month m unix : ℕ)
    → add_months year month m unix ≡ unix + m * (days_in_month year month * 86400)
unfolding add_months
add_months_lem year month zero unix = omega arith
add_months_lem year month (suc m) unix =
    omega (arith, add_months_lem year month m (unix + days_in_month year month * 24 * 60 * 60))

add_years_lem : (n unix : ℕ) → n ≤ 70 → add_years n unix ≡ unix + (n * 365 + (n + 2) / 4) * 86400
unfolding add_years
add_years_lem zero unix l = omega arith
add_years_lem (suc n) unix l = omega (
  arith,
  days_in_year-leap n l,
  add_years_lem n (unix + days_in_year (1970 + suc n) * 24 * 60 * 60) (omega (arith, l)),
)

-- The seconds of the day of the month, as the products of type `uint32_t` give them.
day_part :
    (day hour minute second : ℕ)
    → day ≤ 31
    → hour ≤ 23
    → minute ≤ 60
    → second + mul32 minute 60 + mul32 (mul32 hour 60) 60 + mul32 (mul32 (mul32 day 24) 60) 60
      ≡ second + 60 * minute + 3600 * hour + 86400 * day
day_part day hour minute second d h m = omega (arith, d, h, m)

pub counted_seconds :
    (year month day hour minute second : ℕ)
    → 1970 ≤ year
    → year ≤ 2040
    → 1 ≤ month
    → month ≤ 12
    → day ≤ 31
    → hour ≤ 23
    → minute ≤ 60
    → timestamp_to_unix year month day hour minute second
      ≡ second + 60 * minute + 3600 * hour + 86400 * counted_days year month day
unfolding timestamp_to_unix counted_days
counted_seconds year month day hour minute second y y' m m' d h mi =
    let p = day_part day hour minute second d h mi in
    let unix =
      second + mul32 minute 60 + mul32 (mul32 hour 60) 60 + mul32 (mul32 (mul32 day 24) 60) 60 in
    let q = add_months_lem year month month unix in
    let l = ap (λ n. month * (n * 86400)) (days_in_month-month_days year month y y' m m') in
    let z : month * (month_days year month * 86400) ≡ 86400 * (month * month_days year month) =
      omega arith in
    let r = add_years_lem (year - 1970) (add_months year month month unix) (omega (arith, y')) in
    let late : ltb year 1970 ≡ false = ground arith in
    elim (Bool-cases (year == 1970)) [
      | inl e ↦ let x : year ≡ 1970 = (==_iff year 1970).0 e in rw e (omega (arith, x, p, q, l, z))
      | inr e ↦ rw (e, late) (omega (arith, y, p, q, l, z, r))
    ]
