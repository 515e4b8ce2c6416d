-- ===== src/Scheduler/Timer.antt =====
-- What the timeslice timer does.
use osext.Common.{ℕ, true, ◌≡◌, arith, ap, ◌∙◌, List, ◌∷◌}
use osext.Scheduler.State.{runnable, Thread, Sched, resumes}
use mathlib.Core.List.{append-nil}
use osext.Scheduler.Schedule.{
  schedule_current_saved, tick_loop, save_regs, timeslice_in, schedule_kernel_thread, schedule_ring,
  rotate_to, resume_first,
}

-- The loop over the waiting threads starts at the thread at which it ends.
tick_loop_lem : (t : Thread) (ts : List Thread) → tick_loop t.id (t ∷ ts) ≡ t ∷ ts
unfolding tick_loop
tick_loop_lem t ts = ground arith

tick_step :
    (t u : Thread) (us : List Thread) (regs : List ℕ) (s : Sched)
    → t.status ≡ runnable
    → timeslice_in (t ∷ (u ∷ us)) true true regs s
      ≡ resumes (record s { ring = (record t { regs = regs }) ∷ (u ∷ us) })
unfolding timeslice_in save_regs schedule_current_saved schedule_ring rotate_to resume_first
tick_step t u us regs s runs = rw (tick_loop_lem t (u ∷ us)) (ground (arith, append-nil us))

-- When the timer fires in a running thread that can run, that same thread is resumed, whatever
-- other threads there are: only its saved registers change, and no waiting time passes.
pub timer_resumes_same_thread :
    (t u : Thread) (us : List Thread) (regs : List ℕ) (s : Sched)
    → s.ring ≡ t ∷ (u ∷ us)
    → t.status ≡ runnable
    → schedule_kernel_thread true true regs s
      ≡ resumes (record s { ring = (record t { regs = regs }) ∷ (u ∷ us) })
unfolding schedule_kernel_thread
timer_resumes_same_thread t u us regs s e runs =
    ap (λ r. timeslice_in r true true regs s) e ∙ tick_step t u us regs s runs
