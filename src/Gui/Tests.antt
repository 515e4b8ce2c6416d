-- ===== src/Gui/Tests.antt =====
-- The keypad and the dialogs on concrete inputs.
use osext.Common.{
  ◌*◌, ◌≤◌, true, false, ◌==◌, if◌then◌else◌, none, List, [], ◌∷◌, length, ◌≡◌, refl, arith,
}
use osext.Libk.Strings.{k_strlen}
use osext.Modules.Install.{Loader, Answers}
use osext.Modules.Names.{Distinct}
use osext.Systime.Clock.{Clock, systime_unix, systime_unix_milli}
use osext.Systime.Ticking.{showing}
use osext.Gui.Keypad.{
  elem_at, keycode_ascii, is_key_pressed, special_keys, is_one_of, get_alphanumeric_key_pressed,
  any_key_pressed,
}
use osext.Gui.Keys.{pressing, pressing_lem}
use osext.Gui.TimeDialog.{
  Arrows, opened, dialog_round, raise, lower, select_right, set_number, most, least, set_time,
}
use osext.Gui.Choices.{after, counted, set_time_lem}
use osext.Gui.Manager.{Input, typed}
use osext.Gui.Selection.{shown, shown_lem}

-- KEY_SPACE is pressed.
pressing_lem_example :
    (is_key_pressed (pressing 3) 4 ≡ (4 == 3))
    × (get_alphanumeric_key_pressed (pressing 3)
        ≡ (if is_one_of 3 special_keys then 0 else elem_at keycode_ascii 3))
    × (any_key_pressed (pressing 3) ≡ true)
pressing_lem_example = pressing_lem 3 4 (omega arith) (omega arith)

-- The year is raised, the month selected and lowered.
abbrev touched : List Arrows
touched =
    record { up = false; right = false; down = true; left = false }
    ∷ record { up = true; right = true; down = false; left = false }
    ∷ []

new_year : (after touched).numbers 0 ≡ 2021
unfolding after dialog_round raise lower select_right set_number opened most least
new_year = refl

abbrev clock : Clock
clock = record {
  timer_milis_overflows = 3;
  timer_seconds_overflows = 0;
  devices = record {
    timers = λ m i. 0;
    vic = λ i. 0;
    power = λ i. 0;
    rtc = λ i. 0;
    watchdog = λ i. 0;
  };
}

set_time_lem_example :
    (systime_unix (
        showing
          ((set_time (after touched) clock).devices.timers 1 0)
          ((set_time (after touched) clock).devices.rtc 2)
          (set_time (after touched) clock))
      ≡ counted (after touched))
    × ((systime_unix_milli (
          showing
            ((set_time (after touched) clock).devices.timers 1 0)
            ((set_time (after touched) clock).devices.rtc 2)
            (set_time (after touched) clock))).0
        ≡ counted (after touched) * 1000)
set_time_lem_example = set_time_lem touched clock

abbrev no_modules : Loader
no_modules = record { modules = []; mem = λ _. 0; table = [] }

abbrev nothing : Answers
nothing = record {
  path_marks = [];
  nuc_stat = λ _. none;
  nuc_fopen = λ _. false;
  header = λ _. 0;
  nuc_fread = λ to size mem. mem;
  descriptor = false;
  descriptor_marks = [];
  use_consecutive_pages = λ size t. (0, t);
  module_allocated = false;
  module_marks = [];
  name_allocated = false;
  name_marks = [];
  entry_marks = [];
  module_entry = λ entry mem. 0;
}

-- A round in which "a" is typed.
abbrev letter : Input
letter = record {
  up = false;
  down = false;
  key = 97;
  del = false;
  enter = false;
  pi = false;
  answers = nothing;
}

shown_lem_example :
    ((shown (letter ∷ []) no_modules).selected
      ≤ length (shown (letter ∷ []) no_modules).loader.modules)
    × Distinct (shown (letter ∷ []) no_modules).loader.modules
    × (k_strlen (typed letter (shown (letter ∷ []) no_modules)).buffer 100 ≤ 30)
shown_lem_example = shown_lem (letter ∷ []) letter no_modules refl
