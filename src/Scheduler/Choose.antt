-- ===== src/Scheduler/Choose.antt =====
-- Which thread is resumed.
use osext.Common.{
  ℕ, ◌≤◌, ◌<◌, Bool, true, false, not, ◌==◌, ◌≡◌, refl, arith, ◌⊎◌, inl, inr, Bool-cases, List, [],
  ◌∷◌, Option, map, ◌++◌,
}
use osext.Scheduler.State.{Thread, Sched, Outcome, returns, resumes, is_runnable, is_waiting}
use osext.Common.Words.{mul32}
use mathlib.Core.Path.{subst}
use osext.Scheduler.Schedule.{
  any_thread, all_blocked, shortest_wait, elapse, resume_or_panic, resume_main, sleep_and_resume,
  resume_blocked, resume_first, schedule_ring, schedule_current_saved,
}
use osext.Scheduler.Ring.{tally, All, has_id, IsRing, Addressed, Bounded, All-map, All-split}
use osext.Scheduler.Searches.{
  Search, absent, first, rotate_to-Search, is_least, AtLeast, shortest_wait-Least,
}

-- What the scheduler does, on every path.
pub data Scheduled (gui : Bool) (s : Sched) : Outcome → Type 0 where
  idle : (s.ring ≡ []) ⊎ (gui ≡ false) → Scheduled gui s (returns s)
  ready :
      (front : List Thread) (t : Thread) (back : List Thread)
      → gui ≡ true
      → s.ring ≡ front ++ (t ∷ back)
      → any_thread is_runnable front ≡ false
      → is_runnable t ≡ true
      → Scheduled gui s (resumes (record s { ring = t ∷ (back ++ front) }))
  deadlock :
      (front : List Thread) (t : Thread) (back : List Thread)
      → gui ≡ true
      → any_thread is_runnable s.ring ≡ false
      → any_thread is_waiting s.ring ≡ false
      → s.ring ≡ front ++ (t ∷ back)
      → t.main ≡ true
      → Scheduled gui s (resumes (record s { ring = t ∷ (back ++ front) }))
  slept :
      (least : ℕ) (front : List Thread) (t : Thread) (back : List Thread)
      → gui ≡ true
      → any_thread is_runnable s.ring ≡ false
      → All (AtLeast least) s.ring
      → any_thread (is_least least t.id) s.ring ≡ true
      → map (elapse least) s.ring ≡ front ++ (t ∷ back)
      → is_runnable t ≡ true
      → Scheduled gui s (
          resumes (record s {
            ring = t ∷ (back ++ front);
            fiqs = false;
            timer = true;
            slept = s.slept ++ mul32 least s.timeslice ∷ [];
          }))

is_least-tally :
    (least who : ℕ) (ts : List Thread)
    → any_thread (is_least least who) ts ≡ true
    → 1 ≤ tally (has_id who) ts
unfolding any_thread
is_least-tally least who [] h = absurd (let x : ⊥ = cc in x)
is_least-tally least who (t ∷ ts) h = ground (arith, is_least-tally least who ts)

is_least-absent :
    (least who : ℕ) (ts : List Thread)
    → tally (has_id who) ts ≡ 0
    → All (λ t. t.id ≡ who → is_least least who t ≡ true) ts
is_least-absent least who [] h = tt
is_least-absent least who (t ∷ ts) h =
    ((λ e. ground arith), is_least-absent least who ts (ground arith))

none_below :
    (ts : List Thread)
    → All Bounded ts
    → any_thread is_waiting ts ≡ true
    → ¬ All (AtLeast 0xffffffff) ts
unfolding any_thread
none_below [] b h all = let x : ⊥ = cc in x
none_below (t ∷ ts) b h all = elim (Bool-cases (is_waiting t)) [
  | inl w ↦ omega (arith, b.0, all.0 w)
  | inr w ↦ none_below ts b.1 (rw w at h) all.1
]

abbrev Awake : ℕ → Thread → Type 0
Awake who t = t.id ≡ who → is_runnable t ≡ true

-- In a ring with different addresses, the thread at the address that the search found is the one
-- that was found.
is_least_unique :
    (least who : ℕ) (ts : List Thread)
    → tally (has_id who) ts ≤ 1
    → any_thread (is_least least who) ts ≡ true
    → All (λ t. t.id ≡ who → is_least least who t ≡ true) ts
unfolding any_thread
is_least_unique least who [] u h = tt
is_least_unique least who (t ∷ ts) u h = elim (Bool-cases (t.id == who)) [
  | inl e ↦
      let none_left : tally (has_id who) ts ≡ 0 = ground (arith, u) in
      ((λ q. ground (arith, is_least-tally least who ts)), is_least-absent least who ts none_left)
  | inr e ↦ ((λ q. ground arith), is_least_unique least who ts (ground (arith, u)) (ground arith))
]

elapse-id : (least : ℕ) (t : Thread) → (elapse least t).id ≡ t.id
unfolding elapse
elapse-id least t = ground arith

elapse-is_runnable :
    (least who : ℕ) (t : Thread) → is_least least who t ≡ true → is_runnable (elapse least t) ≡ true
unfolding elapse
elapse-is_runnable least who t h = ground arith

elapse-any :
    (least who : ℕ) (ts : List Thread)
    → any_thread (is_least least who) ts ≡ true
    → any_thread (has_id who) (map (elapse least) ts) ≡ true
unfolding any_thread
elapse-any least who [] h = h
elapse-any least who (t ∷ ts) h = ground (arith, elapse-id least t, elapse-any least who ts)

-- The thread that wakes up first can run.
woken :
    (least who : ℕ) (ts front back : List Thread) (t : Thread)
    → tally (has_id who) ts ≤ 1
    → any_thread (is_least least who) ts ≡ true
    → map (elapse least) ts ≡ front ++ (t ∷ back)
    → has_id who t ≡ true
    → is_runnable t ≡ true
woken least who ts front back t u h e i =
    let awake =
      All-map (λ x. x.id ≡ who → is_least least who x ≡ true) (Awake who) (elapse least) ts
        (λ x k q. elapse-is_runnable least who x (k (omega (arith, elapse-id least x))))
        (is_least_unique least who ts u h) in
    (All-split (Awake who) front (t ∷ back) (subst (All (Awake who)) e awake)).1.0 (ground arith)

-- The least wait, if some thread waits for less than the number that stands for none.
least_found :
    (running : ℕ) (ts : List Thread)
    → All Bounded ts
    → any_thread is_waiting ts ≡ true
    → let r = shortest_wait running (0xffffffff, 0) ts in
      All (AtLeast r.0) ts × (any_thread (is_least r.0 r.1) ts ≡ true)
least_found running ts bounded h =
    let l = shortest_wait-Least running (0xffffffff, 0) ts in
    (
      l.least,
      elim l.found [
        | inl e ↦
            absurd (none_below ts bounded h (subst (λ (r : ℕ × ℕ). All (AtLeast r.0) ts) e l.least))
        | inr f ↦ f
      ],
    )

is_least-Addressed :
    (least who : ℕ) (ts : List Thread)
    → All Addressed ts
    → any_thread (is_least least who) ts ≡ true
    → 0 < who
unfolding any_thread
is_least-Addressed least who [] a h = absurd (let x : ⊥ = cc in x)
is_least-Addressed least who (t ∷ ts) a h = ground (arith, a.0, is_least-Addressed least who ts a.1)

turned :
    (s : Sched) (least who : ℕ) {r : Option (List Thread)}
    → IsRing s.ring
    → any_thread is_runnable s.ring ≡ false
    → All (AtLeast least) s.ring
    → any_thread (is_least least who) s.ring ≡ true
    → Search (has_id who) (map (elapse least) s.ring) r
    → Scheduled true s (
        resume_or_panic
          (record s { fiqs = false; timer = true; slept = s.slept ++ mul32 least s.timeslice ∷ [] })
          r)
unfolding resume_or_panic
turned s least who ring quiet all h (absent no_one) =
    absurd (let yes_one = elapse-any least who s.ring h in let x : ⊥ = cc in x)
turned s least who ring quiet all h (first front t back none_before same e) =
    let i : who ≡ t.id = ground arith in
    slept least front t back refl quiet all
      (subst (λ w. any_thread (is_least least w) s.ring ≡ true) i h) e
      (woken least who s.ring front back t (ring.distinct who) h e same)

sleep_and_resume-Scheduled :
    (s : Sched) (least who : ℕ)
    → IsRing s.ring
    → any_thread is_runnable s.ring ≡ false
    → All (AtLeast least) s.ring
    → any_thread (is_least least who) s.ring ≡ true
    → Scheduled true s (sleep_and_resume (least, who) s)
unfolding sleep_and_resume any_thread
sleep_and_resume-Scheduled s least who ring quiet all h =
    let some_one : (who == 0) ≡ false =
      ground (arith, is_least-Addressed least who s.ring ring.addressed h) in
    rw some_one (
      turned s least who ring quiet all h
        (rotate_to-Search (has_id who) [] (map (elapse least) s.ring) refl))

any_of_tally :
    (test : Thread → Bool) (ts : List Thread) → 1 ≤ tally test ts → any_thread test ts ≡ true
unfolding any_thread
any_of_tally test [] h = absurd (omega arith)
any_of_tally test (t ∷ ts) h = ground (arith, any_of_tally test ts)

all_blocked_lem : (ts : List Thread) → all_blocked ts ≡ not (any_thread is_waiting ts)
unfolding all_blocked any_thread
all_blocked_lem [] = refl
all_blocked_lem (t ∷ ts) = ground arith

main_resumed :
    (s : Sched) {r : Option (List Thread)}
    → IsRing s.ring
    → any_thread is_runnable s.ring ≡ false
    → any_thread is_waiting s.ring ≡ false
    → Search (λ t. t.main) s.ring r
    → Scheduled true s (resume_or_panic s r)
unfolding resume_or_panic
main_resumed s ring quiet still (absent no_one) = absurd (
    let yes_one = any_of_tally (λ t. t.main) s.ring (omega (arith, ring.one_main)) in
    let x : ⊥ = cc in x)
main_resumed s ring quiet still (first front t back none_before m e) =
    deadlock front t back refl quiet still e m

resume_blocked-Scheduled :
    (ts : List Thread) (s : Sched)
    → s.ring ≡ ts
    → IsRing s.ring
    → any_thread is_runnable s.ring ≡ false
    → Scheduled true s (resume_blocked ts s)
unfolding resume_blocked resume_main any_thread
resume_blocked-Scheduled [] s e ring quiet = idle (inl e)
resume_blocked-Scheduled (t ∷ ts) s e ring quiet =
    elim (Bool-cases (any_thread is_waiting s.ring)) [
      | inl w ↦
          let l = least_found t.id s.ring ring.bounded w in
          let r = shortest_wait t.id (0xffffffff, 0) s.ring in
          rw (all_blocked_lem s.ring, w) (sleep_and_resume-Scheduled s r.0 r.1 ring quiet l.0 l.1)
      | inr w ↦
          rw (all_blocked_lem s.ring, w)
            (main_resumed s ring quiet w (rotate_to-Search (λ t. t.main) [] s.ring refl))
    ]

first_resumed :
    (s : Sched) {r : Option (List Thread)}
    → IsRing s.ring
    → Search is_runnable s.ring r
    → Scheduled true s (resume_first s r)
unfolding resume_first
first_resumed s ring (absent quiet) = resume_blocked-Scheduled s.ring s refl ring quiet
first_resumed s ring (first front t back none_before runs e) =
    ready front t back refl e none_before runs

schedule_ring-Scheduled :
    (ts : List Thread) (gui : Bool) (s : Sched)
    → s.ring ≡ ts
    → IsRing s.ring
    → Scheduled gui s (schedule_ring ts gui s)
unfolding schedule_ring any_thread
schedule_ring-Scheduled [] gui s e ring = idle (inl e)
schedule_ring-Scheduled (t ∷ ts) false s e ring = idle (inr refl)
schedule_ring-Scheduled (t ∷ ts) true s e ring =
    first_resumed s ring (rotate_to-Search is_runnable [] s.ring refl)

-- For a ring with different addresses other than 0 and one main thread, in which every thread that
-- waits for another waits for one of the ring and every wait is below 0xffffffff, the scheduler
-- does not panic. It returns if there is no thread or another task of the OS runs. Otherwise it
-- resumes the first thread, from the running one on, that can run. If none can and none waits for a
-- time, it resumes the main thread. Otherwise it sleeps for the least wait, after which the timer
-- is on and FIQs are off, takes that off every wait, and resumes a thread whose wait was the least
-- and that can now run.
pub schedule_current_saved-Scheduled :
    (gui : Bool) (s : Sched) → IsRing s.ring → Scheduled gui s (schedule_current_saved gui s)
unfolding schedule_current_saved
schedule_current_saved-Scheduled gui s ring = schedule_ring-Scheduled s.ring gui s refl ring
