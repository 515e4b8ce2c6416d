-- ===== src/Sync/Tests.antt =====
-- Locks, a mutex and a queue of actions.
use osext.Common.{true, false, none, some, [], ◌∷◌, ◌≡◌, refl, arith}
use osext.Sync.Interrupts.{IrqState, irq_save_state, irq_disable, irq_restore_state}
use osext.Sync.Lock.{lock_create, lock_reference, lock_unreference}
use osext.Sync.Mutex.{try_mutex}
use osext.Sync.Actions.{State, add_to, action_add, do_first, action_do_next}
use osext.Sync.Counting
use osext.Sync.Exclusion

abbrev enabled : IrqState
enabled = record { irq = true; fiq = false }

-- A lock that is referenced once more, and given up twice.
abbrev shared : Counting.Used
shared =
    let r = lock_reference (lock_create true) enabled in
    record { lock = r.0; cpu = r.1; references = 2 }

abbrev given_up : Counting.Used
given_up =
    let r = lock_unreference shared.lock shared.cpu in
    let q = lock_unreference r.0 r.1 in record { lock = q.0; cpu = q.1; references = 0 }

Reach-Counted_example : Counting.Counted enabled given_up
Reach-Counted_example = Counting.Reach-Counted enabled given_up (
    Counting.next
      (Counting.next
        (Counting.next Counting.start (Counting.referenced (omega arith) (omega arith)))
        (Counting.unreferenced (omega arith)))
      (Counting.unreferenced (omega arith)))

-- Thread 1 enters, and thread 2 is refused.
abbrev one_inside : Exclusion.Section
one_inside = record { mutex = (try_mutex 1).1; inside = 1 ∷ [] }

one_inside-Reach : Exclusion.Reach (record { mutex = 0; inside = [] }) one_inside
unfolding try_mutex
one_inside-Reach =
    Exclusion.next (Exclusion.next Exclusion.start (Exclusion.entered 1 refl))
      (Exclusion.refused 2 refl)

Reach-Exclusive_example : Exclusion.Exclusive one_inside
Reach-Exclusive_example = Exclusion.Reach-Exclusive one_inside one_inside-Reach

-- A queue with two functions.
abbrev two_actions : State
two_actions = record {
  queue = some (record { kind = 2; address = 0x1000 } ∷ record { kind = 2; address = 0x2000 } ∷ []);
  called = [];
  cpu = enabled;
}

-- On an empty queue, the interrupts stay disabled.
empty_disables :
    action_do_next (record two_actions { queue = some [] })
    ≡ (none, record { queue = some []; called = []; cpu = record { irq = false; fiq = false } })
unfolding action_do_next do_first irq_disable
empty_disables = refl

added_last : action_add (record { kind = 1; address = 0 }) two_actions ≡ record two_actions {
  queue = some (
      record { kind = 2; address = 0x1000 }
      ∷ record { kind = 2; address = 0x2000 }
      ∷ record { kind = 1; address = 0 }
      ∷ []);
}
unfolding action_add add_to irq_disable irq_save_state irq_restore_state
added_last = refl
