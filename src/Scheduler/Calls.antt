-- ===== src/Scheduler/Calls.antt =====
-- The calls of kernel/scheduling/scheduler.c that change the ring or a thread's status.
use osext.Common.{
  ℕ, ◌+◌, ◌/◌, Bool, true, false, ◌&&◌, ◌||◌, Option, none, some, List, [], ◌∷◌, ◌++◌, map, ◌==◌,
  if◌then◌else◌,
}
use osext.Common.Words.{add32}
use osext.Scheduler.State.{
  runnable, waiting, waiting_for, Thread, Sched, Outcome, returns, resumes, panics, is_waiting_for,
}
use osext.Scheduler.Schedule.{schedule_current_saved}

unfoldable pub update_thread : ℕ → (Thread → Thread) → List Thread → List Thread
update_thread id f ring = map (λ t. if t.id == id then f t else t) ring

-- The running thread waits; with no other thread it sleeps itself. The first argument is the rest
-- of the ring.
unfoldable pub wait_self :
    List Thread
    → (running : Thread) (gui : Bool) (millis ticks : ℕ) (regs : List ℕ) → Sched
    → Outcome
wait_self [] running gui millis ticks regs s = returns (record s { slept = s.slept ++ millis ∷ [] })
wait_self (u ∷ us) running gui millis ticks regs s = schedule_current_saved gui (record s {
  fiqs = false;
  ring = (record running { status = waiting; wait = add32 ticks 1; regs = regs }) ∷ u ∷ us;
  finished = s.finished + 1;
})

unfoldable pub wait_in : List Thread → (gui : Bool) (t millis : ℕ) (regs : List ℕ) → Sched → Outcome
wait_in [] gui t millis regs s = returns s
wait_in (running ∷ others) gui t millis regs s =
    if t == 0
    then returns s
    else if millis / s.timeslice == 0
    then returns s
    else if t == running.id
    then wait_self others running gui millis (millis / s.timeslice) regs s
    else returns (record s {
      fiqs = true;
      ring =
          update_thread t (λ u. record u { status = waiting; wait = millis / s.timeslice })
            (running ∷ others);
    })

-- `regs` are the registers of the calling syscall. `t` is an address, 0 for `NULL`.
unfoldable pub kernel_thread_wait : (gui : Bool) (t millis : ℕ) (regs : List ℕ) → Sched → Outcome
kernel_thread_wait gui t millis regs s = wait_in s.ring gui t millis regs s

unfoldable pub wait_thread_in :
    List Thread → (gui : Bool) (t wait_for : ℕ) (regs : List ℕ) → Sched → Outcome
wait_thread_in [] gui t wait_for regs s = returns s
wait_thread_in (running ∷ others) gui t wait_for regs s =
    if (t == 0) || ((wait_for == 0) || (t == wait_for))
    then returns s
    else if t == running.id
    then schedule_current_saved gui (record s {
      fiqs = false;
      ring =
          (record running { status = waiting_for; status_data = wait_for; regs = regs }) ∷ others;
      finished = s.finished + 1;
    })
    else returns (record s {
      fiqs = true;
      ring =
          update_thread t (λ u. record u { status = waiting_for; status_data = wait_for })
            (running ∷ others);
    })

unfoldable pub kernel_thread_wait_thread :
    (gui : Bool) (t wait_for : ℕ) (regs : List ℕ) → Sched → Outcome
kernel_thread_wait_thread gui t wait_for regs s = wait_thread_in s.ring gui t wait_for regs s

unfoldable pub add_in : List Thread → Thread → Sched → Sched
add_in [] t s = s
add_in (running ∷ others) t s =
    if t.id == 0 then s else record s { fiqs = true; ring = running ∷ t ∷ others }

-- The new thread comes right behind the running one.
unfoldable pub add_kernel_thread : Thread → Sched → Sched
add_kernel_thread t s = add_in s.ring t s

-- A thread that waits for the thread `gone` can run again.
unfoldable pub release : ℕ → Thread → Thread
release gone t =
    if is_waiting_for t && (t.status_data == gone)
    then record t { status = runnable; status_data = 0 }
    else t

unfoldable pub destroy_in : List Thread → (gui : Bool) → Sched → Outcome
destroy_in [] gui s = returns s
destroy_in (running ∷ []) gui s = returns s
destroy_in (running ∷ (u ∷ us)) gui s =
    if running.main
    then returns s
    else schedule_current_saved gui (record s {
      fiqs = false;
      ring = map (release running.id) (u ∷ us);
      destroyed = s.destroyed ++ running.id ∷ [];
    })

unfoldable pub destroy_self : (gui : Bool) → Sched → Outcome
destroy_self gui s = destroy_in s.ring gui s

-- The threads from the running one on, less the first one at `id`.
unfoldable pub unlink : ℕ → List Thread → Option (List Thread)
unlink id [] = none
unlink id (t ∷ ts) =
    if t.id == id then some ts else elim (unlink id ts) [ none ↦ none | some us ↦ some (t ∷ us) ]

-- `enableFIQ` after a call that may return.
unfoldable pub then_enable_fiq : Outcome → Outcome
then_enable_fiq (returns s) = returns (record s { fiqs = true })
then_enable_fiq (resumes s) = resumes s
then_enable_fiq (panics s) = panics s

unfoldable pub finish_remove : Thread → Sched → Option (List Thread) → Sched
finish_remove t s none = record s { fiqs = true }
finish_remove t s (some ring) = record s {
  fiqs = true;
  ring = map (release t.id) ring;
  destroyed = s.destroyed ++ t.id ∷ [];
}

unfoldable pub remove_in : List Thread → (gui : Bool) → Thread → Sched → Outcome
remove_in [] gui t s = returns s
remove_in (running ∷ others) gui t s =
    if (t.id == 0) || t.main
    then returns s
    else if t.id == running.id
    then then_enable_fiq (destroy_self gui (record s { fiqs = false; finished = s.finished + 1 }))
    else returns (finish_remove t s (unlink t.id (running ∷ others)))

unfoldable pub remove_kernel_thread : (gui : Bool) → Thread → Sched → Outcome
remove_kernel_thread gui t s = remove_in s.ring gui t s
