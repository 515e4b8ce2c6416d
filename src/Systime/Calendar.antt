-- ===== src/Systime/Calendar.antt =====
-- `days_in_month`, `days_in_year`, `systime_timestamp_to_unix` and `systime_unix_to_timestamp`.
use osext.Common.{
  ℕ, zero, suc, ◌+◌, ◌-◌, ◌*◌, ◌%◌, ◌^◌, true, false, ltb, leb, ◌==◌, if◌then◌else◌, Option, none,
  some,
}
use osext.Common.Words.{add32, mul32}

unfoldable pub days_in_month : (year month : ℕ) → ℕ
days_in_month year month =
    if month == 1
    then 31
    else if month == 2
    then (if year % 4 == 0
        then if year % 100 == 0 then if year % 400 == 0 then 29 else 28 else 29
        else 28)
    else if month == 3
    then 31
    else if month == 4
    then 30
    else if month == 5
    then 31
    else if month == 6
    then 30
    else if month == 7
    then 31
    else if month == 8
    then 31
    else if month == 9
    then 30
    else if month == 10
    then 31
    else if month == 11
    then 30
    else if month == 12
    then 31
    else 0

unfoldable pub days_in_year : ℕ → ℕ
days_in_year year =
    if year % 4 == 0
    then if year % 100 == 0 then if year % 400 == 0 then 366 else 365 else 366
    else 365

-- `m` rounds of the loop over the months are left. Each adds the days of the same `month`.
unfoldable pub add_months : (year month m unix : ℕ) → ℕ
add_months year month zero unix = unix
add_months year month (suc m) unix =
    add_months year month m (unix + days_in_month year month * 24 * 60 * 60)

-- The years `1970 + n`, ..., 1971 are added.
unfoldable pub add_years : (n unix : ℕ) → ℕ
add_years zero unix = unix
add_years (suc n) unix = add_years n (unix + days_in_year (1970 + suc n) * 24 * 60 * 60)

-- The seconds of `n` years from `year` on, which are subtracted where the year is before 1970.
unfoldable pub years_before : (n year : ℕ) → ℕ
years_before zero year = 0
years_before (suc n) year = days_in_year year * 24 * 60 * 60 + years_before n (year + 1)

-- An `int64_t` is given by its 64 bits. The products are of type `uint32_t`.
unfoldable pub timestamp_to_unix : (year month day hour minute second : ℕ) → ℕ
timestamp_to_unix year month day hour minute second =
    let unix =
      second + mul32 minute 60 + mul32 (mul32 hour 60) 60 + mul32 (mul32 (mul32 day 24) 60) 60 in
    let unix' = add_months year month month unix in
    if year == 1970
    then unix'
    else if ltb year 1970
    then (unix' + (2 ^ 64 - years_before (1970 - year) year)) % 2 ^ 64
    else add_years (year - 1970) unix'

-- A loop `while (unix > 0) { unix -= len(n); n++; }` with `n--; unix += len(n);` behind it, which
-- undo its last round: the last round is the one in which `unix` is at most `len(n)`. The result is
-- `n` and `unix`; `none` means that the fuel did not do. `n` is a `uint32_t`.
unfoldable pub walk : (len : ℕ → ℕ) → (fuel unix n : ℕ) → Option (ℕ × ℕ)
walk len zero unix n = none
walk len (suc fuel) unix n = elim (leb unix (len n)) [
  | true ↦ some (n, unix)
  | false ↦ walk len fuel (unix - len n) (add32 n 1)
]

-- The lengths of the rounds of the five loops.
unfoldable pub year_seconds : ℕ → ℕ
year_seconds y = days_in_year y * 24 * 60 * 60

unfoldable pub month_seconds : (y m : ℕ) → ℕ
month_seconds y m = days_in_month y m * 24 * 60 * 60

pub record Timestamp : Type 0 where
  pub year : ℕ
  pub month : ℕ
  pub day : ℕ
  pub hour : ℕ
  pub minute : ℕ
  pub second : ℕ

-- For `unix` at most 0 the source writes no result, `unwritten`. The counters start with 1970, 1,
-- 1, 0 and 0. 12, 31, 24 and 60 rounds are the fuel of the loops behind the first.
pub data Outcome : Type 0 where
  written : Timestamp → Outcome
  unwritten : Outcome
  out_of_fuel : Outcome

unfoldable pub minutes_loop : (y m d h unix : ℕ) → Outcome
minutes_loop y m d h unix = elim (walk (λ _. 60) 60 unix 0) [
  | none ↦ out_of_fuel
  | some r ↦ written (record { year = y; month = m; day = d; hour = h; minute = r.0; second = r.1 })
]

unfoldable pub hours_loop : (y m d unix : ℕ) → Outcome
hours_loop y m d unix = elim (walk (λ _. 60 * 60) 24 unix 0) [
  | none ↦ out_of_fuel
  | some r ↦ minutes_loop y m d r.0 r.1
]

unfoldable pub days_loop : (y m unix : ℕ) → Outcome
days_loop y m unix = elim (walk (λ _. 24 * 60 * 60) 31 unix 1) [
  | none ↦ out_of_fuel
  | some r ↦ hours_loop y m r.0 r.1
]

unfoldable pub months_loop : (y unix : ℕ) → Outcome
months_loop y unix = elim (walk (month_seconds y) 12 unix 1) [
  | none ↦ out_of_fuel
  | some r ↦ days_loop y r.0 r.1
]

unfoldable pub unix_to_timestamp : (fuel unix : ℕ) → Outcome
unix_to_timestamp fuel unix =
    if unix == 0 then unwritten else elim (walk year_seconds fuel unix 1970) [
      | none ↦ out_of_fuel
      | some r ↦ months_loop r.0 r.1
    ]
