-- ===== src/Sync/Repeated.antt =====
-- Doing the actions of a queue.
use osext.Common.{ℕ, zero, suc, ◌==◌, true, some, List, ◌∷◌, ◌≡◌, refl, ap, ◌∙◌, ==_iff}
use osext.Sync.Counting.{restored}
use osext.Sync.Actions.{Action, State, do_first, action_do_next}

-- `n` calls of `action_do_next`.
abbrev pub do_times : (n : ℕ) → State → State
do_times zero s = s
do_times (suc n) s = do_times n (action_do_next s).1

-- `n` calls of one function.
abbrev pub calls_of : (n address : ℕ) → List ℕ → List ℕ
calls_of zero address called = called
calls_of (suc n) address called = calls_of n address (address ∷ called)

-- However often action_do_next is called on a queue with an action that calls a function, it calls
-- the function of the first action each time, and the queue stays the same.
pub do_times-first :
    (n : ℕ) (s : State) (a : Action) (rest : List Action)
    → s.queue ≡ some (a ∷ rest)
    → a.kind ≡ 2
    → do_times n s ≡ record s { called = calls_of n a.address s.called }
unfolding action_do_next do_first
do_times-first zero s a rest q k = refl
do_times-first (suc n) s a rest q k =
    let c : (a.kind == 2) ≡ true = (==_iff a.kind 2).1 k in
    let once : (action_do_next s).1 ≡ record s { called = a.address ∷ s.called } =
      rw (q, c, restored s.cpu) refl in
    ap (do_times n) once ∙ do_times-first n (record s { called = a.address ∷ s.called }) a rest q k
