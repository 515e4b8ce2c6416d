-- ===== src/Gui/Manager.antt =====
-- `module_manager_show` of kernel/modules/module_manager.c: a round of its loop is one input. What
-- is drawn, and the waiting for keys to be released, are not modelled.
use osext.Common.{
  ℕ, zero, suc, ◌+◌, ◌-◌, Bool, ltb, ◌==◌, ◌&&◌, not, if◌then◌else◌, List, [], ◌∷◌, length,
}
use osext.Libk.Strings.{k_strlen}
use osext.Modules.Install.{Module, Loader, Answers, module_install, module_uninstall}

pub record Manager : Type 0 where
  pub selected : ℕ
  pub buffer : ℕ → ℕ
  pub loader : Loader

-- Which keys are pressed in a round; `key` is the character, and 0 for none. `answers` are those for
-- an installation.
pub record Input : Type 0 where
  pub up : Bool
  pub down : Bool
  pub key : ℕ
  pub del : Bool
  pub enter : Bool
  pub pi : Bool
  pub answers : Answers

unfoldable pub select_up : Manager → Manager
select_up m = if m.selected == 0 then m else record m { selected = m.selected - 1 }

unfoldable pub select_down : Manager → Manager
select_down m =
    if ltb m.selected (length m.loader.modules) then record m { selected = m.selected + 1 } else m

unfoldable pub put_char : (i c : ℕ) → (ℕ → ℕ) → ℕ → ℕ
put_char i c buffer j = if j == i then c else buffer j

unfoldable pub type_key : (key : ℕ) → Manager → Manager
type_key key m =
    let len = k_strlen m.buffer 100 in
    if not (key == 0) && (m.selected == 0)
    then (if ltb len 30 then record m { buffer = put_char len key m.buffer } else m)
    else m

unfoldable pub delete_key : Manager → Manager
delete_key m =
    let len = k_strlen m.buffer 100 in
    if m.selected == 0
    then (if ltb 0 len then record m { buffer = put_char (len - 1) 0 m.buffer } else m)
    else m

unfoldable pub confirm : Answers → Manager → Manager
confirm a m =
    if m.selected == 0
    then record m { buffer = λ _. 0; loader = module_install a m.buffer m.loader }
    else m

-- `n` is how many modules come before the selected one.
unfoldable pub uninstall_selected : (n : ℕ) → List Module → Loader → Loader
uninstall_selected n [] l = l
uninstall_selected zero (m ∷ ms) l = module_uninstall m.name l
uninstall_selected (suc n) (m ∷ ms) l = uninstall_selected n ms l

unfoldable pub remove_selected : Manager → Manager
remove_selected m = if m.selected == 0 then m else record m {
  selected = 0;
  loader = uninstall_selected (m.selected - 1) m.loader.modules m.loader;
}

-- The round up to the test of the enter key, and the whole round.
unfoldable pub typed : Input → Manager → Manager
typed i m =
    let m1 = if i.up then select_up m else m in
    let m2 = if i.down then select_down m1 else m1 in
    let m3 = type_key i.key m2 in if i.del then delete_key m3 else m3

unfoldable pub manager_round : Input → Manager → Manager
manager_round i m =
    let m4 = typed i m in
    let m5 = if i.enter then confirm i.answers m4 else m4 in if i.pi then remove_selected m5 else m5
