-- ===== src/Sync/Actions.antt =====
-- kernel/scheduling/deferred_action.c. A queue is the list of its actions, from the first on, and
-- an action that is added has no next one. A `NULL` pointer to a queue is `none`.
use osext.Common.{ℕ, ◌==◌, if◌then◌else◌, Option, none, some, List, [], ◌∷◌, ◌++◌}
use osext.Sync.Interrupts.{IrqState, irq_save_state, irq_disable, irq_restore_state}

-- The field `type` is `kind`, and `address` is that of the function.
pub record Action : Type 0 where
  pub kind : ℕ
  pub address : ℕ

-- The queue, the addresses of the functions that were called, the last first, and the interrupts.
pub record State : Type 0 where
  pub queue : Option (List Action)
  pub called : List ℕ
  pub cpu : IrqState

unfoldable pub action_get_next : Option (List Action) → Option Action
action_get_next none = none
action_get_next (some []) = none
action_get_next (some (a ∷ rest)) = some a

unfoldable pub add_to : Action → Option (List Action) → State → State
add_to action none s = s
add_to action (some []) s = record s { queue = some (action ∷ []) }
add_to action (some (a ∷ rest)) s =
    let state = irq_save_state s.cpu in
    record s {
      queue = some ((a ∷ rest) ++ (action ∷ []));
      cpu = irq_restore_state state (irq_disable s.cpu);
    }

unfoldable pub action_add : Action → State → State
action_add action s = add_to action s.queue s

-- The body of `action_syscall` is empty.
unfoldable pub do_first : Option (List Action) → State → Option Action × State
do_first none s = (none, s)
do_first (some []) s = (none, record s { cpu = irq_disable s.cpu })
do_first (some (action ∷ rest)) s =
    let state = irq_save_state s.cpu in
    (
      some action,
      record s {
        called = if action.kind == 2 then action.address ∷ s.called else s.called;
        cpu = irq_restore_state state (irq_disable s.cpu);
      },
    )

-- The action that is returned, and the state.
unfoldable pub action_do_next : State → Option Action × State
action_do_next s = do_first s.queue s
