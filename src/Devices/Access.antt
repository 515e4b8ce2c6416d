-- ===== src/Devices/Access.antt =====
-- The registers after an access to one timer.
use osext.Common.{ℕ, Bool, ◌≤◌, ◌==◌, ltb, true, false, if◌then◌else◌, ◌≡◌, refl, arith}
use osext.Devices.Registers.{Devices, power_enable_device}
use osext.Devices.Timer.{for_timer, on_module, power_timers}

pub timers_of_for_timer :
    (timermodule timer : ℕ) (f : (ℕ → ℕ) → ℕ → ℕ) (d : Devices) (m i : ℕ)
    → timer ≤ 1
    → timermodule ≤ 2
    → (for_timer timermodule timer f d).timers m i
      ≡ (if m == timermodule then f (d.timers m) i else d.timers m i)
unfolding for_timer on_module power_timers power_enable_device
timers_of_for_timer timermodule timer f d m i t k =
    let one : ltb 1 timer ≡ false = ground arith in
    let two : ltb 2 timermodule ≡ false = ground arith in rw (one, two) (go (m == timermodule))
  where
    go :
        (b : Bool)
        → (if b then f (d.timers m) else d.timers m) i
          ≡ (if b then f (d.timers m) i else d.timers m i)
    go true = refl
    go false = refl
