-- ===== src/Sync/Lock.antt =====
-- kernel/scheduling/lock.c. Each function returns the state of the interrupts as well. `none` is
-- `NULL`.
use osext.Common.{ℕ, Bool, true, false, ◌==◌, not, if◌then◌else◌, Option, none, some}
use osext.Common.Words.{add32, sub32}
use osext.Sync.Interrupts.{IrqState, irq_save_state, irq_disable, irq_restore_state}

-- `freed` is true after `kfree_hint`.
pub record Lock : Type 0 where
  pub lock_count : ℕ
  pub ref_count : ℕ
  pub freed : Bool

-- `allocated` is false where `kmalloc` returns `NULL`.
unfoldable pub lock_create : (allocated : Bool) → Option Lock
lock_create false = none
lock_create true = some (record { lock_count = 0; ref_count = 1; freed = false })

-- Code with the interrupts disabled.
unfoldable pub guarded : (Lock → Lock) → Option Lock → IrqState → Option Lock × IrqState
guarded f none cpu = (none, cpu)
guarded f (some lock) cpu =
    let state = irq_save_state cpu in (some (f lock), irq_restore_state state (irq_disable cpu))

unfoldable pub count_reference : Lock → Lock
count_reference lock = record lock { ref_count = add32 lock.ref_count 1 }

unfoldable pub drop_reference : Lock → Lock
drop_reference lock =
    let n = sub32 lock.ref_count 1 in
    if n == 0 then record lock { ref_count = n; freed = true } else record lock { ref_count = n }

unfoldable pub count_lock : Lock → Lock
count_lock lock = record lock { lock_count = add32 lock.lock_count 1 }

unfoldable pub drop_lock : Lock → Lock
drop_lock lock =
    if lock.lock_count == 0 then lock else record lock { lock_count = sub32 lock.lock_count 1 }

unfoldable pub lock_reference : Option Lock → IrqState → Option Lock × IrqState
lock_reference lock cpu = guarded count_reference lock cpu

unfoldable pub lock_unreference : Option Lock → IrqState → Option Lock × IrqState
lock_unreference lock cpu = guarded drop_reference lock cpu

unfoldable pub lock_lock : Option Lock → IrqState → Option Lock × IrqState
lock_lock lock cpu = guarded count_lock lock cpu

unfoldable pub lock_unlock : Option Lock → IrqState → Option Lock × IrqState
lock_unlock lock cpu = guarded drop_lock lock cpu

unfoldable pub lock_locked : Option Lock → Bool
lock_locked none = false
lock_locked (some lock) = not (lock.lock_count == 0)
