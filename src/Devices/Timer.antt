-- ===== src/Devices/Timer.antt =====
-- kernel/drivers/timer.c.
use osext.Common.{
  ℕ, ◌+◌, ◌*◌, ◌/◌, ◌%◌, ◌^◌, Bool, false, ◌==◌, ltb, if◌then◌else◌, bit_and, bit_or, Option, none,
  some,
}
use osext.Devices.Registers.{
  Devices, write, and_not, vic_enable, vic_disable, vic_set_fiq, vic_set_irq, power_enable_device,
}

pub record TimerState : Type 0 where
  pub load : ℕ
  pub control : ℕ
  pub bgload : ℕ

-- The devices 11, 12 and 13 are enabled before each access.
unfoldable pub power_timers : Devices → Devices
power_timers d = power_enable_device 13 (power_enable_device 12 (power_enable_device 11 d))

-- The registers of the module `timermodule` are changed.
unfoldable pub on_module : (timermodule : ℕ) → (f : (ℕ → ℕ) → ℕ → ℕ) → Devices → Devices
on_module timermodule f d = record d {
  timers = λ m. if m == timermodule then f (d.timers m) else d.timers m;
}

-- With the guards that most functions have.
unfoldable pub for_timer : (timermodule timer : ℕ) → (f : (ℕ → ℕ) → ℕ → ℕ) → Devices → Devices
for_timer timermodule timer f d =
    if ltb 1 timer
    then d
    else if ltb 2 timermodule
    then d
    else on_module timermodule f (power_timers d)

-- `none` where nothing is written to the state, and the devices afterwards.
unfoldable pub timer_save_state : (timermodule timer : ℕ) → Devices → Option TimerState × Devices
timer_save_state timermodule timer d =
    let saved : TimerState = record {
      load = d.timers timermodule (0 + timer * 8);
      control = d.timers timermodule (2 + timer * 8);
      bgload = d.timers timermodule (6 + timer * 8);
    } in
    if ltb 1 timer
    then (none, d)
    else if ltb 2 timermodule
    then (none, d)
    else (some saved, power_timers d)

unfoldable pub change : (index : ℕ) → (f : ℕ → ℕ) → (ℕ → ℕ) → ℕ → ℕ
change index f registers = write index (f (registers index)) registers

unfoldable pub resume_registers : (timer : ℕ) → TimerState → (ℕ → ℕ) → ℕ → ℕ
resume_registers timer state registers =
    change (2 + timer * 8) (λ c. bit_or c (bit_and state.control (2 ^ 7)))
      (write (2 + timer * 8) (and_not state.control (2 ^ 7)) (
        write (6 + timer * 8) state.bgload (
          write (0 + timer * 8) state.load
            (change (2 + timer * 8) (λ c. and_not c (2 ^ 7)) registers))))

unfoldable pub timer_resume_state : (timermodule timer : ℕ) → TimerState → Devices → Devices
timer_resume_state timermodule timer state d =
    for_timer timermodule timer (resume_registers timer state) d

unfoldable pub timer_return_os : (timermodule timer : ℕ) → TimerState → Devices → Devices
timer_return_os timermodule timer state d =
    let done = vic_enable (17 + timermodule) (
      timer_resume_state timermodule timer state
        (vic_set_irq (17 + timermodule) (vic_disable (17 + timermodule) d))) in
    if ltb 1 timer then d else if ltb 2 timermodule then d else done

unfoldable pub timer_enable : (timermodule timer : ℕ) → Devices → Devices
timer_enable timermodule timer d =
    let done =
      on_module timermodule (change (2 + timer * 8) (λ c. bit_or c 0xa0))
        (vic_enable (17 + timermodule) (vic_set_fiq (17 + timermodule) (power_timers d))) in
    if ltb 1 timer then d else if ltb 2 timermodule then d else done

unfoldable pub timer_disable : (timermodule timer : ℕ) → Devices → Devices
timer_disable timermodule timer d =
    let done =
      on_module timermodule (change (2 + timer * 8) (λ c. and_not c 0xa0))
        (vic_set_irq (17 + timermodule) (vic_disable (17 + timermodule) (power_timers d))) in
    if ltb 1 timer then d else if ltb 2 timermodule then d else done

-- The result, and the devices after it.
unfoldable pub timer_get_clockselect : (timermodule timer : ℕ) → Devices → ℕ × Devices
timer_get_clockselect timermodule timer d =
    if ltb 2 timermodule then (0xffffffff, d) else (d.timers timermodule 32, power_timers d)

unfoldable pub timer_set_clockselect : (timermodule timer select : ℕ) → Devices → Devices
timer_set_clockselect timermodule timer select d =
    if ltb 2 timermodule then d else on_module timermodule (write 32 select) (power_timers d)

unfoldable pub timer_value : (timermodule timer : ℕ) → Devices → ℕ × Devices
timer_value timermodule timer d =
    if ltb 1 timer
    then (0, d)
    else if ltb 2 timermodule
    then (0, d)
    else (d.timers timermodule (1 + timer * 8), power_timers d)

unfoldable pub timer_set_load : (timermodule timer load : ℕ) → Devices → Devices
timer_set_load timermodule timer load d = for_timer timermodule timer (write (timer * 8) load) d

unfoldable pub timer_set_bg_load : (timermodule timer bgload : ℕ) → Devices → Devices
timer_set_bg_load timermodule timer bgload d =
    for_timer timermodule timer (write (timer * 8 + 6) bgload) d

-- A setting is changed with the timer disabled; `0b10000000` is the bit that enables it.
unfoldable pub change_setting : (timer : ℕ) → (f : ℕ → ℕ) → (ℕ → ℕ) → ℕ → ℕ
change_setting timer f registers =
    let control = 2 + timer * 8 in
    let enabled = registers control / 2 ^ 7 % 2 in
    let changed = change control f registers in
    let disabled = change control f (change control (λ c. and_not c 0x80) registers) in
    if enabled == 0 then changed else change control (λ c. bit_or c 0x80) disabled

unfoldable pub timer_set_size : (timermodule timer size : ℕ) → Devices → Devices
timer_set_size timermodule timer size d =
    for_timer timermodule timer (change_setting timer (λ c. bit_or (and_not c 0x2) (size % 2 * 2)))
      d

unfoldable pub timer_set_prescaler : (timermodule timer prescale : ℕ) → Devices → Devices
timer_set_prescaler timermodule timer prescale d =
    for_timer timermodule timer
      (change_setting timer (λ c. bit_or (and_not c 0xc) (prescale % 4 * 4))) d

unfoldable pub timer_set_mode : (timermodule timer mode : ℕ) → Devices → Devices
timer_set_mode timermodule timer mode d =
    for_timer timermodule timer
      (change_setting timer (λ c. bit_or (and_not c 0x40) (mode % 2 * 64))) d

unfoldable pub timer_set_oneshot : (timermodule timer : ℕ) → (oneshot : Bool) → Devices → Devices
timer_set_oneshot timermodule timer oneshot d =
    for_timer timermodule timer
      (change_setting timer (λ c. if oneshot then bit_or (and_not c 0x1) 0x1 else and_not c 0x1)) d

unfoldable pub timer_irq_status : (timermodule timer : ℕ) → Devices → Bool
timer_irq_status timermodule timer d =
    if ltb 1 timer
    then false
    else if ltb 2 timermodule
    then false
    else d.timers timermodule (4 + timer * 8) % 2 == 1

unfoldable pub timer_irq_clear : (timermodule timer : ℕ) → Devices → Devices
timer_irq_clear timermodule timer d =
    if ltb 1 timer
    then d
    else if ltb 2 timermodule
    then d
    else on_module timermodule (write (3 + timer * 8) 0) d

unfoldable pub timer_irq_enabled : (timermodule timer : ℕ) → Devices → Bool × Devices
timer_irq_enabled timermodule timer d =
    if ltb 1 timer
    then (false, d)
    else if ltb 2 timermodule
    then (false, d)
    else (d.timers timermodule (2 + timer * 8) / 2 ^ 5 % 2 == 1, power_timers d)

unfoldable pub timer_set_irq_enabled : (timermodule timer : ℕ) → (irq : Bool) → Devices → Devices
timer_set_irq_enabled timermodule timer irq d =
    for_timer timermodule timer
      (change (2 + timer * 8) (λ c. if irq then bit_or c 0x20 else and_not c 0x20)) d

unfoldable pub timer_is_oneshot : (timermodule timer : ℕ) → Devices → Bool × Devices
timer_is_oneshot timermodule timer d =
    if ltb 1 timer
    then (false, d)
    else if ltb 2 timermodule
    then (false, d)
    else (d.timers timermodule (2 + timer * 8) % 2 == 1, power_timers d)
