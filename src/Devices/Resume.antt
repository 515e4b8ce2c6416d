-- ===== src/Devices/Resume.antt =====
-- Saving the state of a timer and resuming it, of kernel/drivers/timer.c.
use osext.Common.{ℕ, ◌+◌, ◌*◌, ◌^◌, ◌≤◌, ◌<◌, ◌==◌, if◌then◌else◌, ◌≡◌, arith, some, ◌∙◌, ap}
use osext.Devices.Registers.{Devices, write}
use osext.Devices.Access.{timers_of_for_timer}
use osext.Devices.Masks.{masked_parts}
use osext.Devices.Timer.{TimerState, timer_save_state, timer_resume_state, change, resume_registers}

-- What the registers of a module hold after a timer is resumed.
unfoldable pub resumed : (timer : ℕ) → TimerState → (ℕ → ℕ) → ℕ → ℕ
resumed timer state registers i =
    if i == 0 + timer * 8
    then state.load
    else if i == 2 + timer * 8
    then state.control
    else if i == 6 + timer * 8
    then state.bgload
    else registers i

pub resume_registers_lem :
    (timer : ℕ) (state : TimerState) (registers : ℕ → ℕ) (i : ℕ)
    → state.control < 2 ^ 32
    → resume_registers timer state registers i ≡ resumed timer state registers i
unfolding resume_registers resumed change write
resume_registers_lem timer state registers i h =
    ground (arith, masked_parts state.control (2 ^ 7) h (omega arith))

-- The three registers of a timer, saved by `timer_save_state` from any devices, are set to the same
-- values by `timer_resume_state` on any others, whose other timer registers stay as they are.
pub timer_resume_state-timer_save_state :
    (timermodule timer : ℕ) (d d' : Devices)
    → timer ≤ 1
    → timermodule ≤ 2
    → d.timers timermodule (2 + timer * 8) < 2 ^ 32
    → (state : TimerState) × (((timer_save_state timermodule timer d).0 ≡ some state)
        × ((m i : ℕ)
            → (timer_resume_state timermodule timer state d').timers m i ≡ (
                if m == timermodule
                then (if i == 0 + timer * 8
                    then d.timers timermodule (0 + timer * 8)
                    else if i == 2 + timer * 8
                    then d.timers timermodule (2 + timer * 8)
                    else if i == 6 + timer * 8
                    then d.timers timermodule (6 + timer * 8)
                    else d'.timers m i)
                else d'.timers m i)))
unfolding timer_save_state timer_resume_state resumed
timer_resume_state-timer_save_state timermodule timer d d' t k h =
    (saved, (ground (arith, t, k), same))
  where
    saved : TimerState
    saved = record {
      load = d.timers timermodule (0 + timer * 8);
      control = d.timers timermodule (2 + timer * 8);
      bgload = d.timers timermodule (6 + timer * 8);
    }

    same :
        (m i : ℕ)
        → (timer_resume_state timermodule timer saved d').timers m i ≡ (
            if m == timermodule
            then (if i == 0 + timer * 8
                then d.timers timermodule (0 + timer * 8)
                else if i == 2 + timer * 8
                then d.timers timermodule (2 + timer * 8)
                else if i == 6 + timer * 8
                then d.timers timermodule (6 + timer * 8)
                else d'.timers m i)
            else d'.timers m i)
    same m i =
        timers_of_for_timer timermodule timer (resume_registers timer saved) d' m i t k
        ∙ ap (λ x. if m == timermodule then x else d'.timers m i)
            (resume_registers_lem timer saved (d'.timers m) i h)
