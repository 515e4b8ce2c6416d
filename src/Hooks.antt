-- ===== src/Hooks.antt =====
-- The functions that kernel/os-hooks.c calls from its hooks: `register_draw_function`,
-- `unregister_draw_function`, `register_file_function` and `unregister_file_function`.
pub mod Listed
mod Tests
use osext.Common.{ℕ, zero, suc, ◌+◌, ◌-◌, Bool, true, false, ◌==◌, ltb, if◌then◌else◌}

-- One of the two arrays of 100 functions with its number of functions. The interrupts are disabled
-- during each change, and restored after it.
pub record Functions : Type 0 where
  pub functions : ℕ → ℕ
  pub num : ℕ

unfoldable pub register_function : (function : ℕ) → Functions → Bool × Functions
register_function function h =
    if function == 0
    then (false, h)
    else if ltb h.num 99
    then (
      true,
      record { functions = λ i. if i == h.num then function else h.functions i; num = h.num + 1 },
    )
    else (false, h)

-- `n` rounds of the loop that moves the functions down are left, from index `a` on.
unfoldable pub move_down : (n a : ℕ) → (ℕ → ℕ) → ℕ → ℕ
move_down zero a functions = functions
move_down (suc n) a functions =
    move_down n (a + 1) (λ i. if i == a then functions (a + 1) else functions i)

unfoldable pub remove_at : (i : ℕ) → Functions → Functions
remove_at i h =
    let moved = move_down (h.num - 1 - i) i h.functions in
    record { functions = λ j. if j == h.num - 1 then 0 else moved j; num = h.num - 1 }

-- `n` rounds of the search are left, from index `i` on.
unfoldable pub unregister_from : (function n i : ℕ) → Functions → Bool × Functions
unregister_from function zero i h = (false, h)
unregister_from function (suc n) i h =
    let rest = unregister_from function n (i + 1) h in
    if h.functions i == function then (true, remove_at i h) else rest

unfoldable pub unregister_function : (function : ℕ) → Functions → Bool × Functions
unregister_function function h =
    if function == 0 then (false, h) else unregister_from function h.num 0 h

-- `drawhook_functions` and `filehook_functions`.
pub record Hooks : Type 0 where
  pub draw : Functions
  pub file : Functions

unfoldable pub register_draw_function : (function : ℕ) → Hooks → Bool × Hooks
register_draw_function function h =
    let r = register_function function h.draw in (r.0, record h { draw = r.1 })

unfoldable pub unregister_draw_function : (function : ℕ) → Hooks → Bool × Hooks
unregister_draw_function function h =
    let r = unregister_function function h.draw in (r.0, record h { draw = r.1 })

unfoldable pub register_file_function : (function : ℕ) → Hooks → Bool × Hooks
register_file_function function h =
    let r = register_function function h.file in (r.0, record h { file = r.1 })

unfoldable pub unregister_file_function : (function : ℕ) → Hooks → Bool × Hooks
unregister_file_function function h =
    let r = unregister_function function h.file in (r.0, record h { file = r.1 })
