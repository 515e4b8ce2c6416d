-- ===== src/Devices/Settings.antt =====
-- The settings of a timer, of kernel/drivers/timer.c.
use osext.Common.{
  ℕ, ◌+◌, ◌*◌, ◌/◌, ◌%◌, ◌^◌, ◌≤◌, ◌<◌, ◌==◌, true, false, ◌≡◌, refl, ◌∙◌, arith, inl, inr,
  Bool-cases, ==_iff,
}
use osext.Common.Bits.{bit}
use osext.Devices.Registers.{Devices, write}
use osext.Devices.Access.{timers_of_for_timer}
use osext.Devices.Masks.{with_field, with_field-detour}
use osext.Devices.Timer.{
  timer_set_size, timer_set_prescaler, timer_set_mode, for_timer, change, change_setting,
}

pub change_setting_lem :
    (timer mask value : ℕ) (registers : ℕ → ℕ) (i : ℕ)
    → mask < 2 ^ 32
    → value < 2 ^ 32
    → registers (2 + timer * 8) < 2 ^ 32
    → bit mask 7 ≡ 0
    → change_setting timer (with_field mask value) registers i
      ≡ change (2 + timer * 8) (with_field mask value) registers i
unfolding change_setting change write bit
change_setting_lem timer mask value registers i m v h free =
    elim (Bool-cases (registers (2 + timer * 8) / 2 ^ 7 % 2 == 0)) [
      | inl e ↦ rw e refl
      | inr e ↦ rw e (
          ground (
            arith,
            with_field-detour mask value (registers (2 + timer * 8)) m v h free
                (enabled (registers (2 + timer * 8)) e),
          ))
    ]
  where
    enabled : (c : ℕ) → (c / 2 ^ 7 % 2 == 0) ≡ false → bit c 7 ≡ 1
    enabled c e = ground (arith, e)

-- Each setter of a timer's size, prescaler and mode changes its field of the control register, and
-- nothing else of the timer, whether the timer was enabled or not.
pub change_settings_lem :
    (timermodule timer : ℕ) (d : Devices)
    → timer ≤ 1
    → timermodule ≤ 2
    → d.timers timermodule (2 + timer * 8) < 2 ^ 32
    → (i : ℕ)
    → ((size : ℕ)
        → (timer_set_size timermodule timer size d).timers timermodule i
          ≡ change (2 + timer * 8) (with_field 0x2 (size % 2 * 2)) (d.timers timermodule) i)
      × ((prescale : ℕ)
          → (timer_set_prescaler timermodule timer prescale d).timers timermodule i
            ≡ change (2 + timer * 8) (with_field 0xc (prescale % 4 * 4)) (d.timers timermodule) i)
      × ((mode : ℕ)
          → (timer_set_mode timermodule timer mode d).timers timermodule i
            ≡ change (2 + timer * 8) (with_field 0x40 (mode % 2 * 64)) (d.timers timermodule) i)
unfolding timer_set_size timer_set_prescaler timer_set_mode with_field bit
change_settings_lem timermodule timer d t k h i = (
  λ size. set 0x2 (size % 2 * 2) (omega arith) (omega arith) refl,
  λ prescale. set 0xc (prescale % 4 * 4) (omega arith) (omega arith) refl,
  λ mode. set 0x40 (mode % 2 * 64) (omega arith) (omega arith) refl,
)
  where
    set :
        (mask value : ℕ)
        → mask < 2 ^ 32
        → value < 2 ^ 32
        → bit mask 7 ≡ 0
        → (for_timer timermodule timer (change_setting timer (with_field mask value)) d).timers
            timermodule i
          ≡ change (2 + timer * 8) (with_field mask value) (d.timers timermodule) i
    set mask value m v free =
        timers_of_for_timer timermodule timer (change_setting timer (with_field mask value)) d
          timermodule i t k
        ∙ (let same : (timermodule == timermodule) ≡ true =
              (==_iff timermodule timermodule).1 refl in
            rw same (change_setting_lem timer mask value (d.timers timermodule) i m v h free))
