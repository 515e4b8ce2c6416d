-- ===== src/Sync/Interrupts.antt =====
-- The interrupt state of kernel/libk/modes.c.
use osext.Common.{Bool, true, false, if◌then◌else◌}

-- `struct irq_state`, and the two bits of the processor; true where interrupts are enabled.
pub record IrqState : Type 0 where
  pub irq : Bool
  pub fiq : Bool

-- The state that is saved is that of the processor.
unfoldable pub irq_save_state : IrqState → IrqState
irq_save_state cpu = record { irq = cpu.irq; fiq = cpu.fiq }

unfoldable pub irq_disable : IrqState → IrqState
irq_disable cpu = record { irq = false; fiq = false }

unfoldable pub irq_restore_state : (s cpu : IrqState) → IrqState
irq_restore_state s cpu = record {
  irq = if s.irq then true else cpu.irq;
  fiq = if s.fiq then true else cpu.fiq;
}
