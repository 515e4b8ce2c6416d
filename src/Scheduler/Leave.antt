-- ===== src/Scheduler/Leave.antt =====
-- Threads that end: what is left of the ring, and who is released.
use osext.Common.{
  ℕ, ◌+◌, Bool, true, false, ◌==◌, ◌≡◌, refl, arith, sym, List, [], ◌∷◌, some, map, ◌++◌,
}
use osext.Scheduler.State.{Thread, Sched, Outcome, returns, resumes, panics}
use mathlib.Core.Path.{subst}
use osext.Scheduler.Calls.{
  destroy_in, destroy_self, unlink, then_enable_fiq, finish_remove, remove_in, remove_kernel_thread,
}
use osext.Scheduler.Schedule.{elapse}
use osext.Scheduler.Ring.{tally, tally-append, All-split, has_id, IsRing, Addressed}
use osext.Scheduler.Choose.{
  Scheduled, idle, ready, deadlock, slept, schedule_current_saved-Scheduled,
}
use osext.Scheduler.Keep.{After}
use osext.Scheduler.Release.{IsLeft, release-IsLeft, IsLeft-turn, IsLeft-elapse}

-- After a thread has gone: the ring that is left, and the list of the threads destroyed.
abbrev pub Gone : Thread → List ℕ → Sched → Type 0
Gone t destroyed s = IsLeft t s.ring × (s.destroyed ≡ destroyed)

schedule-Gone :
    {gui : Bool} {s : Sched} {r : Outcome} (t : Thread)
    → IsLeft t s.ring
    → Scheduled gui s r
    → After (Gone t s.destroyed) r
schedule-Gone t h (idle e) = (h, refl)
schedule-Gone {s = s} t h (ready front u back g e q runs) =
    (IsLeft-turn t s.ring front back u h e, refl)
schedule-Gone {s = s} t h (deadlock front u back g q w e m) =
    (IsLeft-turn t s.ring front back u h e, refl)
schedule-Gone {s = s} t h (slept least front u back g q all found e runs) = (
  IsLeft-turn t (map (elapse least) s.ring) front back u (IsLeft-elapse t least s.ring h) e,
  refl,
)

After-enable_fiq :
    (t : Thread) (destroyed : List ℕ) (r : Outcome)
    → After (Gone t destroyed) r
    → After (Gone t destroyed) (then_enable_fiq r)
unfolding then_enable_fiq
After-enable_fiq t destroyed (returns s) h = h
After-enable_fiq t destroyed (resumes s) h = h
After-enable_fiq t destroyed (panics s) h = h

-- The main thread is another one.
destroy_in-Gone :
    (gui : Bool) (t : Thread) (ts : List Thread) (s : Sched)
    → IsRing (t ∷ ts)
    → t.main ≡ false
    → After (Gone t (s.destroyed ++ t.id ∷ [])) (destroy_in (t ∷ ts) gui s)
unfolding destroy_in
destroy_in-Gone gui t [] s h m = absurd (let one = h.one_main in let x : ⊥ = ground arith in x)
destroy_in-Gone gui t (u ∷ us) s h m = simp m (
    let left = release-IsLeft t [] (u ∷ us) h m in
    schedule-Gone t left (schedule_current_saved-Scheduled gui _ left.good))

unlink_lem :
    (t : Thread) (front back : List Thread)
    → tally (has_id t.id) front ≡ 0
    → unlink t.id (front ++ (t ∷ back)) ≡ some (front ++ back)
unfolding unlink
unlink_lem t [] back h = ground arith
unlink_lem t (u ∷ front) back h = ground (arith, unlink_lem t front back)

destroy_ring-Gone :
    (gui : Bool) (t : Thread) (ts ring : List Thread) (s : Sched)
    → ring ≡ t ∷ ts
    → IsRing ring
    → t.main ≡ false
    → After (Gone t (s.destroyed ++ t.id ∷ [])) (destroy_in ring gui s)
destroy_ring-Gone gui t ts ring s e h m =
    subst (λ r. After (Gone t (s.destroyed ++ t.id ∷ [])) (destroy_in r gui s)) (sym e)
      (destroy_in-Gone gui t ts s (subst IsRing e h) m)

test-Addressed : (t : Thread) → Addressed t → (t.id == 0) ≡ false
test-Addressed t h = ground arith

-- The running thread is removed.
remove_first-Gone :
    (gui : Bool) (t : Thread) (ts : List Thread) (s : Sched)
    → s.ring ≡ t ∷ ts
    → IsRing (t ∷ ts)
    → t.main ≡ false
    → After (Gone t (s.destroyed ++ t.id ∷ [])) (remove_in (t ∷ ts) gui t s)
unfolding remove_in destroy_self
remove_first-Gone gui t ts s e h m =
    let here : (t.id == t.id) ≡ true = ground arith in
    simp (test-Addressed t h.addressed.0, m, here)
      (After-enable_fiq t (s.destroyed ++ t.id ∷ []) _ (
        destroy_ring-Gone gui t ts s.ring (record s { fiqs = false; finished = s.finished + 1 }) e
          (subst IsRing (sym e) h) m))

-- Another thread is removed.
remove_other-Gone :
    (gui : Bool) (r t : Thread) (front back : List Thread) (s : Sched)
    → IsRing (r ∷ (front ++ (t ∷ back)))
    → t.main ≡ false
    → After (Gone t (s.destroyed ++ t.id ∷ [])) (remove_in (r ∷ (front ++ (t ∷ back))) gui t s)
unfolding remove_in finish_remove
remove_other-Gone gui r t front back s h m =
    let a = All-split Addressed front (t ∷ back) h.addressed.1 in
    let one = h.distinct t.id in
    let parts = tally-append (has_id t.id) front (t ∷ back) in
    let not_first : (t.id == r.id) ≡ false = ground (arith, one, parts) in
    let before : tally (has_id t.id) (r ∷ front) ≡ 0 = ground (arith, one, parts) in
    simp (test-Addressed t a.1.0, m, not_first, unlink_lem t (r ∷ front) back before)
      (release-IsLeft t (r ∷ front) back h m, refl)

-- In a good ring, removing any thread but the main one, the running thread included: it is
-- destroyed once; the ring that is left is good; the thread is not in it, and no thread of it
-- waits for the thread that is gone. So it is also when the call does not return since the
-- scheduler has resumed another thread.
pub remove_kernel_thread-Gone :
    (gui : Bool) (t : Thread) (front back : List Thread) (s : Sched)
    → IsRing s.ring
    → s.ring ≡ front ++ (t ∷ back)
    → t.main ≡ false
    → After (Gone t (s.destroyed ++ t.id ∷ [])) (remove_kernel_thread gui t s)
unfolding remove_kernel_thread
remove_kernel_thread-Gone gui t [] back s h e m =
    subst (λ r. After (Gone t (s.destroyed ++ t.id ∷ [])) (remove_in r gui t s)) (sym e)
      (remove_first-Gone gui t back s e (subst IsRing e h) m)
remove_kernel_thread-Gone gui t (r ∷ front) back s h e m =
    subst (λ ts. After (Gone t (s.destroyed ++ t.id ∷ [])) (remove_in ts gui t s)) (sym e)
      (remove_other-Gone gui r t front back s (subst IsRing e h) m)
