-- ===== src/Gui/Choices.antt =====
-- The numbers that can be chosen in the dialog for the time, and the time that they set.
use osext.Common.{
  ℕ, zero, suc, ◌+◌, ◌-◌, ◌*◌, ◌^◌, ◌≤◌, ◌<◌, Bool, true, false, ltb, ◌==◌, if◌then◌else◌, List, [],
  ◌∷◌, ◌≡◌, refl, ◌∙◌, arith,
}
use osext.Common.Words.{mul32}
use osext.Systime.Calendar.{days_in_month, days_in_year, add_months, add_years, timestamp_to_unix}
use osext.Systime.Seconds.{counted_days, counted_seconds}
use osext.Systime.Clock.{Clock, systime_unix, systime_unix_milli, systime_set_unix}
use osext.Systime.Ticking.{showing, overflows, set_unix_lem, systime_set_unix-ticking}
use osext.Gui.TimeDialog.{
  Dialog, Arrows, opened, set_number, most, least, raise, lower, select_left, select_right,
  dialog_round, chosen_time, set_time,
}

-- The dialog after rounds with these inputs, the last of which is the first of the list.
unfoldable pub after : List Arrows → Dialog
after [] = opened
after (a ∷ arrows) = dialog_round a (after arrows)

unfoldable pub InRange : Dialog → Type 0
InRange d = (d.selected ≤ 5) × ((i : ℕ) → i ≤ 5 → (least i ≤ d.numbers i) × (d.numbers i ≤ most i))

pub keep :
    {A : Type 0} (P : A → Type 0) (b : Bool) (x y : A)
    → (b ≡ true → P x)
    → (b ≡ false → P y)
    → P (if b then x else y)
keep P true x y p q = p refl
keep P false x y p q = q refl

raise-InRange : (d : Dialog) → InRange d → InRange (raise d)
unfolding InRange raise set_number
raise-InRange d h =
    keep InRange (ltb 5 d.selected) _ _ (λ _. h)
      (λ _.
        keep InRange (ltb (d.numbers d.selected) (most d.selected)) _ _
          (λ e. (h.0, λ i l. ground (arith, e, h.0, h.1 i l, h.1 d.selected h.0))) (λ _. h))

lower-InRange : (d : Dialog) → InRange d → InRange (lower d)
unfolding InRange lower set_number
lower-InRange d h =
    keep InRange (ltb 5 d.selected) _ _ (λ _. h)
      (λ _.
        keep InRange (ltb (least d.selected) (d.numbers d.selected)) _ _
          (λ e. (h.0, λ i l. ground (arith, e, h.0, h.1 i l, h.1 d.selected h.0))) (λ _. h))

left-InRange : (d : Dialog) → InRange d → InRange (select_left d)
unfolding InRange select_left
left-InRange d h = keep InRange (ltb 0 d.selected) _ _ (λ e. (omega (arith, h.0), h.1)) (λ _. h)

right-InRange : (d : Dialog) → InRange d → InRange (select_right d)
unfolding InRange select_right
right-InRange d h = keep InRange (ltb d.selected 5) _ _ (λ e. (ground (arith, e), h.1)) (λ _. h)

optional :
    (b : Bool) (f : Dialog → Dialog) (d : Dialog)
    → ((d' : Dialog) → InRange d' → InRange (f d'))
    → InRange d
    → InRange (if b then f d else d)
optional true f d p h = p d h
optional false f d p h = h

-- After any rounds of the dialog, one of the six numbers is selected, the year is between 1970 and
-- 2040, the month between 1 and 12, the day between 1 and 31, the hour at most 23, and the minute
-- and the second at most 60.
pub after-InRange : (arrows : List Arrows) → InRange (after arrows)
unfolding after dialog_round InRange opened least most
after-InRange [] = (omega arith, λ i l. ground (arith, l))
after-InRange (a ∷ arrows) =
    let d = after arrows in
    let d1 = if a.up then raise d else d in
    let d2 = if a.down then lower d1 else d1 in
    let d3 = if a.left then select_left d2 else d2 in
    optional a.right select_right d3 right-InRange (
      optional a.left select_left d2 left-InRange (
        optional a.down lower d1 lower-InRange
          (optional a.up raise d raise-InRange (after-InRange arrows))))

days_in_month_le : (year month : ℕ) → days_in_month year month ≤ 31
unfolding days_in_month
days_in_month_le year month = ground arith

days_in_year_le : (year : ℕ) → days_in_year year ≤ 366
unfolding days_in_year
days_in_year_le year = ground arith

add_months_le : (year month m unix : ℕ) → add_months year month m unix ≤ unix + m * 2678400
unfolding add_months
add_months_le year month zero unix = omega arith
add_months_le year month (suc m) unix = omega (
  arith,
  days_in_month_le year month,
  add_months_le year month m (unix + days_in_month year month * 24 * 60 * 60),
)

add_months_ge : (year month m unix : ℕ) → unix ≤ add_months year month m unix
unfolding add_months
add_months_ge year month zero unix = omega arith
add_months_ge year month (suc m) unix =
    omega (arith, add_months_ge year month m (unix + days_in_month year month * 24 * 60 * 60))

add_years_le : (n unix : ℕ) → add_years n unix ≤ unix + n * 31622400
unfolding add_years
add_years_le zero unix = omega arith
add_years_le (suc n) unix = omega (
  arith,
  days_in_year_le (1970 + suc n),
  add_years_le n (unix + days_in_year (1970 + suc n) * 24 * 60 * 60),
)

add_years_ge : (n unix : ℕ) → unix ≤ add_years n unix
unfolding add_years
add_years_ge zero unix = omega arith
add_years_ge (suc n) unix =
    omega (arith, add_years_ge n (unix + days_in_year (1970 + suc n) * 24 * 60 * 60))

-- The seconds of the day of the month.
unfoldable day_part : (day hour minute second : ℕ) → ℕ
day_part day hour minute second =
    second + mul32 minute 60 + mul32 (mul32 hour 60) 60 + mul32 (mul32 (mul32 day 24) 60) 60

day_part_lem :
    (day hour minute second : ℕ)
    → 1 ≤ day
    → day ≤ 31
    → hour ≤ 23
    → minute ≤ 60
    → second ≤ 60
    → (0 < day_part day hour minute second) × (day_part day hour minute second < 2800000)
unfolding day_part
day_part_lem day hour minute second d d' h m s = (omega arith, omega arith)

timestamp_lem :
    (year month day hour minute second : ℕ)
    → 1970 ≤ year
    → year ≤ 2040
    → month ≤ 12
    → 1 ≤ day
    → day ≤ 31
    → hour ≤ 23
    → minute ≤ 60
    → second ≤ 60
    → (0 < timestamp_to_unix year month day hour minute second)
      × (timestamp_to_unix year month day hour minute second < 2 ^ 32)
unfolding timestamp_to_unix day_part
timestamp_lem year month day hour minute second y y' mo d d' h m s =
    let unix = day_part day hour minute second in
    let p = day_part_lem day hour minute second d d' h m s in
    let unix' = add_months year month month unix in
    let q = add_months_le year month month unix in
    let q' = add_months_ge year month month unix in
    let r = add_years_le (year - 1970) unix' in
    let r' = add_years_ge (year - 1970) unix' in
    let late : ltb year 1970 ≡ false = ground arith in
    let good = λ (t : ℕ). (0 < t) × (t < 2 ^ 32) in
    keep good (year == 1970) _ _ (λ e. (omega (arith, p, q, q'), omega (arith, p, q, q')))
      (λ e. rw late (omega (arith, p, q, q', r, r'), omega (arith, p, q, q', r, r')))

-- The seconds that the six numbers count, one by one.
unfoldable pub counted : Dialog → ℕ
counted d =
    d.numbers 5
    + 60 * d.numbers 4
    + 3600 * d.numbers 3
    + 86400 * counted_days (d.numbers 0) (d.numbers 1) (d.numbers 2)

chosen_time-counted : (arrows : List Arrows) → chosen_time (after arrows) ≡ counted (after arrows)
unfolding chosen_time counted InRange least most
chosen_time-counted arrows =
    let d = after arrows in
    let n = (after-InRange arrows).1 in
    let n0 = n 0 (omega arith) in
    let n1 = n 1 (omega arith) in
    counted_seconds (d.numbers 0) (d.numbers 1) (d.numbers 2) (d.numbers 3) (d.numbers 4)
      (d.numbers 5) n0.0 n0.1 n1.0 n1.1 (n 2 (omega arith)).1 (n 3 (omega arith)).1
      (n 4 (omega arith)).1

-- After any rounds of the dialog, closing it sets the clock to the seconds that the numbers count:
-- with the counters at the values they are loaded with, systime_unix gives them, and
-- systime_unix_milli 1000 times as many. Counted are the seconds, the minutes, the hours, the days,
-- which start with 1, as many months as the number of the month, each as long as the chosen one,
-- 365 days for each year from 1970 up to the chosen one, that one excepted, and one day for each
-- leap year from 1971 up to the chosen one. That is the sum of the source; it is later than the
-- date.
pub set_time_lem :
    (arrows : List Arrows) (c : Clock)
    → (systime_unix (
          showing
            ((set_time (after arrows) c).devices.timers 1 0)
            ((set_time (after arrows) c).devices.rtc 2)
            (set_time (after arrows) c))
        ≡ counted (after arrows))
      × ((systime_unix_milli (
            showing
              ((set_time (after arrows) c).devices.timers 1 0)
              ((set_time (after arrows) c).devices.rtc 2)
              (set_time (after arrows) c))).0
          ≡ counted (after arrows) * 1000)
unfolding set_time chosen_time overflows InRange least most
set_time_lem arrows c =
    let d = after arrows in
    let n = (after-InRange arrows).1 in
    let b =
      timestamp_lem (d.numbers 0) (d.numbers 1) (d.numbers 2) (d.numbers 3) (d.numbers 4)
        (d.numbers 5) (n 0 (omega arith)).0 (n 0 (omega arith)).1 (n 1 (omega arith)).1
        (n 2 (omega arith)).0 (n 2 (omega arith)).1 (n 3 (omega arith)).1 (n 4 (omega arith)).1
        (n 5 (omega arith)).1 in
    let t = chosen_time d in
    let f = set_unix_lem t c b.0 (omega (arith, b.1)) in
    let r =
      systime_set_unix-ticking t 0 0 0 0 ((systime_set_unix t c).devices.timers 1 0)
        ((systime_set_unix t c).devices.rtc 2) c b.0 (omega (arith, b.1)) (omega arith)
        (omega arith) (omega (arith, f.2)) (omega (arith, f.3)) (omega arith) (omega arith) in
    let q = chosen_time-counted arrows in (r.0 ∙ omega (arith, q), r.1 ∙ omega (arith, q))
