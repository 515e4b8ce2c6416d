-- ===== src/Gui/Keys.antt =====
-- What the keypad reads when one key is pressed.
use osext.Common.{
  ℕ, zero, suc, ◌/◌, ◌%◌, ◌^◌, ◌<◌, Bool, true, false, ◌==◌, ◌&&◌, not, if◌then◌else◌, ◌≡◌, refl,
  arith, Bool-cases, ==_iff, inl, inr,
}
use osext.Gui.Keypad.{
  elem_at, keycode_ascii, keymap_cas, is_key_pressed, special_keys, is_one_of, alphanumeric_from,
  get_alphanumeric_key_pressed, any_from, any_key_pressed,
}

-- The data of the keypad while the key is pressed, and no other.
unfoldable pub pressing : (key : ℕ) → ℕ → ℕ
pressing key i = let bit = elem_at keymap_cas key in if i == bit / 16 then 2 ^ (bit % 16) else 0

same_truth : Bool → Bool → Bool
same_truth true b = b
same_truth false b = not b

same_truth_lem : (a b : Bool) → same_truth a b ≡ true → a ≡ b
unfolding same_truth
same_truth_lem true b e = ground (arith, e)
same_truth_lem false b e = ground (arith, e)

and_left : (a b : Bool) → (a && b) ≡ true → a ≡ true
and_left true b e = refl
and_left false b e = e

and_right : (a b : Bool) → (a && b) ≡ true → b ≡ true
and_right true b e = e
and_right false b e = absurd (ground (arith, e))

all_below : ℕ → (ℕ → Bool) → Bool
all_below zero test = true
all_below (suc n) test = test n && all_below n test

all_below_lem :
    (n : ℕ) (test : ℕ → Bool) → all_below n test ≡ true → (i : ℕ) → i < n → test i ≡ true
unfolding all_below
all_below_lem zero test e i h = absurd (omega (arith, h))
all_below_lem (suc n) test e i h = elim (Bool-cases (i == n)) [
  | inl f ↦
      let g = (==_iff i n).0 f in
      let t : test n ≡ true = and_left (test n) (all_below n test) e in rw g t
  | inr f ↦ all_below_lem n test (and_right (test n) (all_below n test) e) i (ground (arith, f, h))
]

read_character : ℕ → ℕ
read_character key = if is_one_of key special_keys then 0 else elem_at keycode_ascii key

any_ok : all_below 70 (λ key. any_key_pressed (pressing key)) ≡ true
unfolding all_below any_key_pressed any_from pressing elem_at
any_ok = refl

characters_ok :
    all_below 70 (λ key. get_alphanumeric_key_pressed (pressing key) == read_character key) ≡ true
unfolding all_below get_alphanumeric_key_pressed alphanumeric_from pressing is_one_of is_key_pressed
    elem_at read_character
characters_ok = refl

keys_ok :
    all_below 70 (λ key.
      all_below 70 (λ other. same_truth (is_key_pressed (pressing key) other) (other == key)))
    ≡ true
unfolding all_below pressing is_key_pressed elem_at same_truth
keys_ok = refl

-- While one key is pressed and no other, isKeyPressed holds of that key and of no other one,
-- any_key_pressed holds, and getAlphanumericKeyPressed gives the key's character, or the null byte
-- if it is one of the keys that this function leaves out.
pub pressing_lem :
    (key other : ℕ)
    → key < 70
    → other < 70
    → (is_key_pressed (pressing key) other ≡ (other == key))
      × (get_alphanumeric_key_pressed (pressing key)
          ≡ (if is_one_of key special_keys then 0 else elem_at keycode_ascii key))
      × (any_key_pressed (pressing key) ≡ true)
unfolding read_character
pressing_lem key other h k = (
  same_truth_lem (is_key_pressed (pressing key) other) (other == key) (
      all_below_lem 70 (λ o. same_truth (is_key_pressed (pressing key) o) (o == key))
        (all_below_lem 70
          (λ k'. all_below 70 (λ o. same_truth (is_key_pressed (pressing k') o) (o == k'))) keys_ok
          key h)
        other k),
  (==_iff (get_alphanumeric_key_pressed (pressing key)) (read_character key)).0 (
      all_below_lem 70 (λ k'. get_alphanumeric_key_pressed (pressing k') == read_character k')
        characters_ok key h),
  all_below_lem 70 (λ k'. any_key_pressed (pressing k')) any_ok key h,
)
