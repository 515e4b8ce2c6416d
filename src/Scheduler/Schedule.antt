-- ===== src/Scheduler/Schedule.antt =====
-- How kernel/scheduling/scheduler.c chooses the thread that runs next.
use osext.Common.{
  ℕ, ◌-◌, Bool, true, false, not, ◌&&◌, ◌||◌, Option, none, some, List, [], ◌∷◌, ◌++◌, map, ltb,
  leb, ◌==◌, if◌then◌else◌,
}
use osext.Common.Words.{mul32}
use osext.Scheduler.State.{
  runnable, Thread, Sched, Outcome, returns, resumes, panics, is_runnable, is_waiting,
}

-- The search loops go round the ring from the running thread. The ring is turned so that the
-- first thread that passes the test comes first; `seen` has failed it.
unfoldable pub rotate_to : (Thread → Bool) → List Thread → List Thread → Option (List Thread)
rotate_to test seen [] = none
rotate_to test seen (t ∷ ts) =
    let rest = rotate_to test (seen ++ t ∷ []) ts in
    if test t then some (t ∷ (ts ++ seen)) else rest

unfoldable pub any_thread : (Thread → Bool) → List Thread → Bool
any_thread test [] = false
any_thread test (t ∷ ts) = test t || any_thread test ts

unfoldable pub all_blocked : List Thread → Bool
all_blocked [] = true
all_blocked (t ∷ ts) = if is_waiting t then false else not (any_thread is_waiting (t ∷ ts))

-- One round of the search for the least wait: `best` is `min_wait` and the address of
-- `min_wait_thread`, 0 for `NULL`; `running` is the address of the running thread.
unfoldable pub shorter : (running : ℕ) → ℕ × ℕ → Thread → ℕ × ℕ
shorter running (least, who) t =
    if is_waiting t
    then (if ltb t.wait least
        then (t.wait, t.id)
        else if (t.wait == least) && not (t.id == running)
        then (least, t.id)
        else (least, who))
    else (least, who)

unfoldable pub shortest_wait : (running : ℕ) → ℕ × ℕ → List Thread → ℕ × ℕ
shortest_wait running best [] = best
shortest_wait running best (t ∷ ts) = shortest_wait running (shorter running best t) ts

-- One thread after `waited` timeslices.
unfoldable pub elapse : ℕ → Thread → Thread
elapse waited t =
    if is_waiting t
    then (if leb t.wait waited
        then record t { status = runnable; wait = 0 }
        else record t { wait = t.wait - waited })
    else t

unfoldable pub resume_or_panic : Sched → Option (List Thread) → Outcome
resume_or_panic s none = panics s
resume_or_panic s (some ring) = resumes (record s { ring = ring })

-- All threads are blocked: the main thread is resumed.
unfoldable pub resume_main : Sched → Outcome
resume_main s = resume_or_panic s (rotate_to (λ t. t.main) [] s.ring)

-- Some thread waits for a time: sleep until the first of them is done.
unfoldable pub sleep_and_resume : ℕ × ℕ → Sched → Outcome
sleep_and_resume (least, who) s =
    if who == 0
    then panics s
    else resume_or_panic
        (record s { fiqs = false; timer = true; slept = s.slept ++ mul32 least s.timeslice ∷ [] })
        (rotate_to (λ t. t.id == who) [] (map (elapse least) s.ring))

-- No thread can run. The first argument is the ring.
unfoldable pub resume_blocked : List Thread → Sched → Outcome
resume_blocked [] s = returns s
resume_blocked (t ∷ ts) s =
    if all_blocked s.ring
    then resume_main s
    else sleep_and_resume (shortest_wait t.id (0xffffffff, 0) s.ring) s

unfoldable pub resume_first : Sched → Option (List Thread) → Outcome
resume_first s none = resume_blocked s.ring s
resume_first s (some ring) = resumes (record s { ring = ring })

unfoldable pub schedule_ring : List Thread → (gui : Bool) → Sched → Outcome
schedule_ring [] gui s = returns s
schedule_ring (t ∷ ts) gui s =
    if gui then resume_first s (rotate_to is_runnable [] s.ring) else returns s

-- `gui` says that the task of the OS in which scheduling was enabled is the current one.
unfoldable pub schedule_current_saved : (gui : Bool) → Sched → Outcome
schedule_current_saved gui s = schedule_ring s.ring gui s

-- The registers of the interrupted code go into the running thread.
unfoldable pub save_regs : List ℕ → List Thread → List Thread
save_regs regs [] = []
save_regs regs (t ∷ ts) = (record t { regs = regs }) ∷ ts

-- One thread in the loop of `schedule_kernel_thread` over the waiting threads.
unfoldable pub tick : Thread → Thread
tick t =
    if is_waiting t
    then (if t.wait == 0
        then record t { status = runnable }
        else if t.wait - 1 == 0
        then record t { wait = 0; status = runnable }
        else record t { wait = t.wait - 1 })
    else t

-- The loop runs `while (next != running_kernel_thread)`, from the first thread of the list on.
unfoldable pub tick_loop : (running : ℕ) → List Thread → List Thread
tick_loop running [] = []
tick_loop running (t ∷ ts) = if t.id == running then t ∷ ts else tick t ∷ tick_loop running ts

unfoldable pub timeslice_in : List Thread → (gui svc_mode : Bool) (regs : List ℕ) → Sched → Outcome
timeslice_in [] gui svc_mode regs s = returns s
timeslice_in (t ∷ []) gui svc_mode regs s = returns s
timeslice_in (t ∷ (u ∷ us)) gui svc_mode regs s =
    if not gui || not svc_mode
    then returns s
    else schedule_current_saved gui
        (record s { ring = save_regs regs (tick_loop t.id (t ∷ (u ∷ us))) })

-- The handler of the timeslice timer. `svc_mode` says that the interrupted code ran in SVC mode,
-- and `regs` are its registers.
unfoldable pub schedule_kernel_thread : (gui svc_mode : Bool) (regs : List ℕ) → Sched → Outcome
schedule_kernel_thread gui svc_mode regs s = timeslice_in s.ring gui svc_mode regs s
