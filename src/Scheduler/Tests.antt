-- ===== src/Scheduler/Tests.antt =====
-- The scheduler on a ring of three threads.
use osext.Common.{ℕ, ◌≤◌, Bool, true, false, ◌≡◌, refl, arith, List, [], ◌∷◌}
use osext.Scheduler.State.{Status, runnable, waiting, waiting_for, Thread, Sched, resumes}
use osext.Scheduler.Schedule.{
  schedule_current_saved, schedule_ring, rotate_to, resume_first, resume_blocked, sleep_and_resume,
  shortest_wait, shorter, all_blocked, any_thread, elapse, resume_or_panic,
}
use osext.Scheduler.Calls.{
  kernel_thread_wait, kernel_thread_wait_thread, add_kernel_thread, remove_kernel_thread,
}
use osext.Scheduler.Ring.{IsRing, has_id, tally}
use osext.Scheduler.Choose.{Scheduled, schedule_current_saved-Scheduled}
use osext.Scheduler.Keep.{After, RingHolds, calls-RingHolds}
use osext.Scheduler.Leave.{Gone, remove_kernel_thread-Gone}

abbrev thread : ℕ → Bool → Status → ℕ → ℕ → Thread
thread id main status wait target = record {
  id = id;
  regs = [];
  main = main;
  stack = 0;
  stacksize = 0;
  status = status;
  wait = wait;
  status_data = target;
}

abbrev sched : List Thread → Sched
sched ring = record {
  ring = ring;
  timeslice = 2;
  fiqs = true;
  irqs = false;
  timer = true;
  destroyed = [];
  slept = [];
  finished = 0;
}

-- The main thread waits for thread 20, which sleeps, as thread 30 does.
abbrev main_thread : Thread
main_thread = thread 10 true waiting_for 0 20

abbrev sleeper : Thread
sleeper = thread 20 false waiting 9 0

abbrev napper : Thread
napper = thread 30 false waiting 4 0

abbrev asleep : Sched
asleep = sched (main_thread ∷ sleeper ∷ napper ∷ [])

distinct_ids : (id : ℕ) → tally (has_id id) asleep.ring ≤ 1
distinct_ids id = ground arith

asleep-IsRing : IsRing asleep.ring
asleep-IsRing = record {
  distinct = distinct_ids;
  one_main = refl;
  inside = (
    (λ e. omega arith),
    ((λ e. let x : ⊥ = cc in absurd x), ((λ e. let x : ⊥ = cc in absurd x), tt)),
  );
  addressed = omega arith;
  bounded = omega arith;
}

-- The napper wakes up after four timeslices, eight milliseconds.
nap :
    schedule_current_saved true asleep
    ≡ resumes (record asleep {
      ring = thread 30 false runnable 0 0 ∷ main_thread ∷ thread 20 false waiting 5 0 ∷ [];
      fiqs = false;
      slept = 8 ∷ [];
    })
unfolding schedule_current_saved schedule_ring rotate_to resume_first resume_blocked
    sleep_and_resume shortest_wait shorter all_blocked any_thread elapse resume_or_panic
nap = refl

schedule_current_saved-Scheduled_example :
    Scheduled true asleep (schedule_current_saved true asleep)
schedule_current_saved-Scheduled_example =
    schedule_current_saved-Scheduled true asleep asleep-IsRing

calls-RingHolds_example :
    RingHolds (kernel_thread_wait true 10 100 [] asleep)
    × RingHolds (kernel_thread_wait_thread true 10 30 [] asleep)
    × IsRing (add_kernel_thread (thread 40 false runnable 0 0) asleep).ring
calls-RingHolds_example =
    calls-RingHolds true 10 100 30 (thread 40 false runnable 0 0) [] asleep asleep-IsRing
      (omega arith) (omega arith) refl refl refl (omega arith)

remove_kernel_thread-Gone_example :
    After (Gone sleeper (20 ∷ [])) (remove_kernel_thread true sleeper asleep)
remove_kernel_thread-Gone_example =
    remove_kernel_thread-Gone true sleeper (main_thread ∷ []) (napper ∷ []) asleep asleep-IsRing
      refl refl
