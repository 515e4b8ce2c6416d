-- ===== src/Scheduler/State.antt =====
-- The state of kernel/scheduling/scheduler.c, the constructor of kernel/scheduling/thread.c, and the
-- start and end of scheduling.
-- `running_kernel_thread` is a pointer into a circular list. Here the ring is the list of its
-- threads in the order of `next`, the running one first, and `[]` stands for `NULL`. A thread is
-- known by its address, which is not 0.
use osext.Common.{
  ℕ, ◌*◌, ◌/◌, Bool, true, false, List, [], ◌∷◌, ◌++◌, map, if◌then◌else◌, replicate, set,
}
use osext.Common.Words.{add32, sub32}

-- SVC_THREAD_RUNNABLE, SVC_THREAD_WAITING, SVC_THREAD_WAITING_FOR
pub data Status : Type 0 where
  runnable waiting waiting_for : Status

-- `struct svc_thread` less `next`.
pub record Thread : Type 0 where
  pub id : ℕ
  pub regs : List ℕ
  pub main : Bool
  pub stack : ℕ
  pub stacksize : ℕ
  pub status : Status
  pub wait : ℕ
  pub status_data : ℕ

-- The variables of the scheduler, and what it does to the machine: the FIQ and IRQ masks, the
-- timeslice timer, the threads destroyed, the times slept, and how often a syscall was marked as
-- finished.
pub record Sched : Type 0 where
  pub ring : List Thread
  pub timeslice : ℕ
  pub fiqs : Bool
  pub irqs : Bool
  pub timer : Bool
  pub destroyed : List ℕ
  pub slept : List ℕ
  pub finished : ℕ

-- `resume_svc_thread` and `panic` do not return. A resumed thread is the first of the ring.
pub data Outcome : Type 0 where
  returns : Sched → Outcome
  resumes : Sched → Outcome
  panics : Sched → Outcome

abbrev pub is_runnable : Thread → Bool
is_runnable t = elim t.status [ runnable ↦ true | waiting ↦ false | waiting_for ↦ false ]

abbrev pub is_waiting : Thread → Bool
is_waiting t = elim t.status [ runnable ↦ false | waiting ↦ true | waiting_for ↦ false ]

abbrev pub is_waiting_for : Thread → Bool
is_waiting_for t = elim t.status [ runnable ↦ false | waiting ↦ false | waiting_for ↦ true ]

-- `scheduler_svc_thread_destroy_self` lies at `exit_address`.
unfoldable pub create_svc_thread : (id exit_address stack stacksize entry : ℕ) → Thread
create_svc_thread id exit_address stack stacksize entry = record {
  id = id;
  regs =
      set
        (set
          (set (set (replicate 18 0) 13 (add32 (sub32 (stack / 8 * 8) 8) stacksize)) 14
            exit_address)
          16 0b10010011)
        15 entry;
  main = false;
  stack = stack;
  stacksize = stacksize;
  status = runnable;
  wait = 0;
  status_data = 0;
}

-- `id` is what `request_svc_thread` returns.
unfoldable pub enable_scheduling : (id exit_address : ℕ) → Sched → Sched
enable_scheduling id exit_address s = elim s.ring [
  | [] ↦ record s {
    ring = (record (create_svc_thread id exit_address 0 0x20000 0) { main = true }) ∷ [];
    irqs = false;
    timer = true;
  }
  | t ∷ ts ↦ s
]

unfoldable pub disable_scheduling : Sched → Sched
disable_scheduling s = elim s.ring [
  | [] ↦ s
  | t ∷ ts ↦
      if t.main
      then record s {
        ring = [];
        irqs = true;
        timer = false;
        destroyed = s.destroyed ++ map (λ u. u.id) (t ∷ ts);
      }
      else s
]
