-- ===== src/Gui/Selection.antt =====
-- What holds in the module manager after any rounds.
use osext.Common.{
  ℕ, zero, suc, ◌-◌, ◌≤◌, Bool, true, false, ltb, ◌==◌, ◌&&◌, not, if◌then◌else◌, List, [], ◌∷◌,
  length, ◌≡◌, refl, arith, Bool-cases, inl, inr,
}
use osext.Libk.Strings.{k_strlen}
use osext.Libk.Compare.{k_strlen_lem}
use osext.Modules.Install.{Module, Loader, Answers}
use osext.Modules.Names.{Distinct}
use osext.Modules.Steps.{installed, uninstalled, Reach, start, next, Reach-Distinct}
use osext.Gui.Choices.{keep}
use osext.Gui.Manager.{
  Manager, Input, select_up, select_down, put_char, type_key, delete_key, confirm,
  uninstall_selected, remove_selected, typed, manager_round,
}

-- The manager after rounds with these inputs, the last of which is the first of the list.
unfoldable pub shown : List Input → Loader → Manager
shown [] l = record { selected = 0; buffer = λ _. 0; loader = l }
shown (i ∷ inputs) l = manager_round i (shown inputs l)

unfoldable pub Fits : (l : Loader) → Manager → Type 0
Fits l m =
    (m.selected ≤ length m.loader.modules) × ((j : ℕ) → 30 ≤ j → m.buffer j ≡ 0) × Reach l m.loader

short : (buffer : ℕ → ℕ) → ((j : ℕ) → 30 ≤ j → buffer j ≡ 0) → k_strlen buffer 100 ≤ 30
short buffer h =
    let s = k_strlen_lem buffer 100 in
    elim (Bool-cases (ltb 30 (k_strlen buffer 100))) [
      | inl e ↦ absurd (s.1 30 (ground (arith, e)) (h 30 (omega arith)))
      | inr e ↦ ground (arith, e)
    ]

up-Fits : (l : Loader) (m : Manager) → Fits l m → Fits l (select_up m)
unfolding Fits select_up
up-Fits l m h = keep (Fits l) (m.selected == 0) _ _ (λ _. h) (λ e. (omega (arith, h.0), h.1, h.2))

down-Fits : (l : Loader) (m : Manager) → Fits l m → Fits l (select_down m)
unfolding Fits select_down
down-Fits l m h =
    keep (Fits l) (ltb m.selected (length m.loader.modules)) _ _
      (λ e. (ground (arith, e), h.1, h.2)) (λ _. h)

type-Fits : (key : ℕ) (l : Loader) (m : Manager) → Fits l m → Fits l (type_key key m)
unfolding Fits type_key put_char
type-Fits key l m h =
    keep (Fits l) (not (key == 0) && (m.selected == 0)) _ _
      (λ _.
        keep (Fits l) (ltb (k_strlen m.buffer 100) 30) _ _
          (λ e. (h.0, (λ j k. ground (arith, e, k, h.1 j k)), h.2)) (λ _. h))
      (λ _. h)

delete-Fits : (l : Loader) (m : Manager) → Fits l m → Fits l (delete_key m)
unfolding Fits delete_key put_char
delete-Fits l m h =
    keep (Fits l) (m.selected == 0) _ _
      (λ _.
        keep (Fits l) (ltb 0 (k_strlen m.buffer 100)) _ _
          (λ e. (h.0, (λ j k. ground (arith, e, k, h.1 j k)), h.2)) (λ _. h))
      (λ _. h)

confirm-Fits : (a : Answers) (l : Loader) (m : Manager) → Fits l m → Fits l (confirm a m)
unfolding Fits confirm
confirm-Fits a l m h =
    keep (Fits l) (m.selected == 0) _ _
      (λ e. (ground (arith, e), (λ j k. refl), next h.2 (installed a m.buffer))) (λ _. h)

uninstall_selected-Reach :
    (n : ℕ) (ms : List Module) (l k : Loader) → Reach l k → Reach l (uninstall_selected n ms k)
unfolding uninstall_selected
uninstall_selected-Reach n [] l k r = r
uninstall_selected-Reach zero (m ∷ ms) l k r = next r (uninstalled m.name)
uninstall_selected-Reach (suc n) (m ∷ ms) l k r = uninstall_selected-Reach n ms l k r

remove-Fits : (l : Loader) (m : Manager) → Fits l m → Fits l (remove_selected m)
unfolding Fits remove_selected
remove-Fits l m h =
    keep (Fits l) (m.selected == 0) _ _ (λ _. h)
      (λ _. (
        omega arith,
        h.1,
        uninstall_selected-Reach (m.selected - 1) m.loader.modules l m.loader h.2,
      ))

optional :
    (l : Loader) (b : Bool) (f : Manager → Manager) (m : Manager)
    → ((m' : Manager) → Fits l m' → Fits l (f m'))
    → Fits l m
    → Fits l (if b then f m else m)
optional l true f m p h = p m h
optional l false f m p h = h

typed-Fits : (i : Input) (l : Loader) (m : Manager) → Fits l m → Fits l (typed i m)
unfolding typed
typed-Fits i l m h =
    let m1 = if i.up then select_up m else m in
    let m2 = if i.down then select_down m1 else m1 in
    let h2 =
      optional l i.down select_down m1 (down-Fits l) (optional l i.up select_up m (up-Fits l) h) in
    optional l i.del delete_key (type_key i.key m2) (delete-Fits l) (type-Fits i.key l m2 h2)

shown-Fits : (inputs : List Input) (l : Loader) → Fits l (shown inputs l)
unfolding shown manager_round Fits
shown-Fits [] l = (omega arith, (λ j k. refl), start)
shown-Fits (i ∷ inputs) l =
    let m4 = typed i (shown inputs l) in
    let m5 = if i.enter then confirm i.answers m4 else m4 in
    optional l i.pi remove_selected m5 (remove-Fits l) (
      optional l i.enter (confirm i.answers) m4 (confirm-Fits i.answers l)
        (typed-Fits i l (shown inputs l) (shown-Fits inputs l)))

-- After any rounds of the module manager that begin without modules, the selection is the input
-- line or one of the modules, the installed modules have different names, and the name that the
-- next round can install has at most 30 characters.
pub shown_lem :
    (inputs : List Input) (i : Input) (l : Loader)
    → l.modules ≡ []
    → ((shown inputs l).selected ≤ length (shown inputs l).loader.modules)
      × Distinct (shown inputs l).loader.modules
      × (k_strlen (typed i (shown inputs l)).buffer 100 ≤ 30)
unfolding Fits
shown_lem inputs i l e =
    let h = shown-Fits inputs l in
    let t = typed-Fits i l (shown inputs l) h in
    (
      h.0,
      Reach-Distinct l (shown inputs l).loader e h.2,
      short (typed i (shown inputs l)).buffer t.1,
    )
