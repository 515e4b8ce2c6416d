-- ===== src/Hooks/Tests.antt =====
-- Registering and unregistering functions.
use osext.Common.{true, ◌==◌, if◌then◌else◌, [], ◌∷◌, ◌≡◌, refl}
use osext.Hooks.{
  Functions, register_function, move_down, remove_at, unregister_from, unregister_function,
  register_draw_function,
}
use osext.Hooks.Listed.{registered, unregister-without}

-- Three functions, of which two are the same.
abbrev three : Functions
three = record {
  functions =
      λ i. if i == 0 then 0x1000 else if i == 1 then 0x2000 else if i == 2 then 0x1000 else 0;
  num = 3;
}

unregister-without_example :
    let added = register_function 0x1000 three in
    let removed = unregister_function 0x1000 three in
    (added.0 ≡ true)
    × (registered added.1 ≡ 0x1000 ∷ 0x2000 ∷ 0x1000 ∷ 0x1000 ∷ [])
    × (removed.0 ≡ true)
    × (registered removed.1 ≡ 0x2000 ∷ 0x1000 ∷ [])
unregister-without_example = unregister-without 0x1000 three

-- The last function leaves its place empty.
last_cleared : (unregister_function 0x2000 (record three { num = 2 })).1.functions 1 ≡ 0
unfolding unregister_function unregister_from remove_at move_down
last_cleared = refl

-- The two arrays are separate.
drawn_only : (register_draw_function 0x3000 (record { draw = three; file = three })).1.file ≡ three
unfolding register_draw_function
drawn_only = refl
