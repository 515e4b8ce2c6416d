-- ===== src/Devices/Registers.antt =====
-- The registers of the devices as 32-bit words by their indices, and irq_controller.c, power.c and
-- rtc.c. A register holds what was written to it last; what a device does by itself is not part of
-- the model.
use osext.Common.{ℕ, ◌-◌, ◌/◌, ◌%◌, ◌^◌, Bool, true, false, ◌==◌, if◌then◌else◌, bit_and, bit_or}

-- `timers` gives the registers of the three timer modules.
pub record Devices : Type 0 where
  pub timers : ℕ → ℕ → ℕ
  pub vic : ℕ → ℕ
  pub power : ℕ → ℕ
  pub rtc : ℕ → ℕ
  pub watchdog : ℕ → ℕ

unfoldable pub write : (index value : ℕ) → (ℕ → ℕ) → ℕ → ℕ
write index value registers i = if i == index then value else registers i

-- `x & ~mask`
unfoldable pub and_not : (x mask : ℕ) → ℕ
and_not x mask = bit_and x (2 ^ 32 - 1 - mask)

-- `0b1 << n`
unfoldable pub one_bit : ℕ → ℕ
one_bit n = 2 ^ n % 2 ^ 32

unfoldable pub vic_enable : (irq : ℕ) → Devices → Devices
vic_enable irq d = record d { vic = write 4 (bit_or (d.vic 4) (one_bit irq)) d.vic }

unfoldable pub vic_disable : (irq : ℕ) → Devices → Devices
vic_disable irq d = record d { vic = write 5 (one_bit irq) d.vic }

unfoldable pub vic_disable_all : Devices → Devices
vic_disable_all d = record d { vic = write 5 0xffffffff d.vic }

unfoldable pub vic_enable_all : Devices → Devices
vic_enable_all d = record d { vic = write 4 0xffffffff d.vic }

unfoldable pub vic_set_fiq : (irq : ℕ) → Devices → Devices
vic_set_fiq irq d = record d { vic = write 3 (bit_or (d.vic 3) (one_bit irq)) d.vic }

unfoldable pub vic_set_irq : (irq : ℕ) → Devices → Devices
vic_set_irq irq d = record d { vic = write 3 (and_not (d.vic 3) (one_bit irq)) d.vic }

unfoldable pub vic_is_fiq : (fiq : ℕ) → Devices → Bool
vic_is_fiq fiq d = d.vic 3 / 2 ^ fiq % 2 == 1

unfoldable pub power_device_powered : (device : ℕ) → Devices → Bool
power_device_powered device d = if d.power 6 / 2 ^ device % 2 == 1 then false else true

unfoldable pub power_enable_device : (device : ℕ) → Devices → Devices
power_enable_device device d = record d {
  power = write 6 (and_not (d.power 6) (one_bit device)) d.power;
}

unfoldable pub power_disable_device : (device : ℕ) → Devices → Devices
power_disable_device device d = record d {
  power = write 6 (bit_or (d.power 6) (one_bit device)) d.power;
}

unfoldable pub rtc_get_value : Devices → ℕ
rtc_get_value d = d.rtc 0

unfoldable pub rtc_set_value : (newval : ℕ) → Devices → Devices
rtc_set_value newval d = record d { rtc = write 2 newval d.rtc }

unfoldable pub rtc_irq_status : Devices → Bool
rtc_irq_status d = d.rtc 6 % 2 == 1

unfoldable pub rtc_irq_clear : Devices → Devices
rtc_irq_clear d = record d { rtc = write 7 1 d.rtc }

unfoldable pub rtc_disable_interrupt : Devices → Devices
rtc_disable_interrupt d = record d { rtc = write 4 0 d.rtc }

unfoldable pub rtc_enable_interrupt : Devices → Devices
rtc_enable_interrupt d = record d { rtc = write 4 1 d.rtc }

unfoldable pub rtc_claim : Devices → Devices
rtc_claim d =
    let d' = vic_set_fiq 4 (vic_enable 4 d) in record d' { rtc = write 4 1 (write 3 1 d'.rtc) }

unfoldable pub rtc_set_alarm : (alarm : ℕ) → Devices → Devices
rtc_set_alarm alarm d = record d { rtc = write 1 alarm d.rtc }

unfoldable pub rtc_get_alarm : Devices → ℕ
rtc_get_alarm d = d.rtc 1
