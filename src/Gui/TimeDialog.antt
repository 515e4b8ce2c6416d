-- ===== src/Gui/TimeDialog.antt =====
-- `set_time_dialog` of modules/clock/time-dialog.c: the state of the dialog, the input of a round,
-- and the time that is set at the end. What is drawn is not modelled.
use osext.Common.{ℕ, ◌+◌, ◌-◌, Bool, ltb, ◌==◌, if◌then◌else◌}
use osext.Systime.Calendar.{timestamp_to_unix}
use osext.Systime.Clock.{Clock, systime_set_unix}

pub record Dialog : Type 0 where
  pub selected : ℕ
  pub numbers : ℕ → ℕ

-- Which arrows of the touchpad are touched in a round.
pub record Arrows : Type 0 where
  pub up : Bool
  pub right : Bool
  pub down : Bool
  pub left : Bool

unfoldable pub opened : Dialog
opened = record {
  selected = 0;
  numbers = λ i. if i == 0 then 2020 else if i == 1 then 1 else if i == 2 then 1 else 0;
}

unfoldable pub set_number : (i value : ℕ) → (ℕ → ℕ) → ℕ → ℕ
set_number i value numbers j = if j == i then value else numbers j

-- The bounds up to which a number is raised, and down to which it is lowered.
unfoldable pub most : ℕ → ℕ
most selected =
    if selected == 0
    then 2040
    else if selected == 1
    then 12
    else if selected == 2
    then 31
    else if selected == 3
    then 23
    else 60

unfoldable pub least : ℕ → ℕ
least selected =
    if selected == 0 then 1970 else if selected == 1 then 1 else if selected == 2 then 1 else 0

-- The switch has no case for a number above 5.
unfoldable pub raise : Dialog → Dialog
raise d =
    let raised = record d {
      numbers = set_number d.selected (d.numbers d.selected + 1) d.numbers;
    } in
    if ltb 5 d.selected
    then d
    else if ltb (d.numbers d.selected) (most d.selected)
    then raised
    else d

unfoldable pub lower : Dialog → Dialog
lower d =
    let lowered = record d {
      numbers = set_number d.selected (d.numbers d.selected - 1) d.numbers;
    } in
    if ltb 5 d.selected
    then d
    else if ltb (least d.selected) (d.numbers d.selected)
    then lowered
    else d

unfoldable pub select_left : Dialog → Dialog
select_left d = if ltb 0 d.selected then record d { selected = d.selected - 1 } else d

unfoldable pub select_right : Dialog → Dialog
select_right d = if ltb d.selected 5 then record d { selected = d.selected + 1 } else d

unfoldable pub dialog_round : Arrows → Dialog → Dialog
dialog_round a d =
    let d1 = if a.up then raise d else d in
    let d2 = if a.down then lower d1 else d1 in
    let d3 = if a.left then select_left d2 else d2 in if a.right then select_right d3 else d3

unfoldable pub chosen_time : Dialog → ℕ
chosen_time d =
    timestamp_to_unix (d.numbers 0) (d.numbers 1) (d.numbers 2) (d.numbers 3) (d.numbers 4)
      (d.numbers 5)

unfoldable pub set_time : Dialog → Clock → Clock
set_time d c = systime_set_unix (chosen_time d) c
