-- ===== src/Scheduler/Keep.antt =====
-- Every operation keeps what a ring satisfies.
use osext.Common.{
  ℕ, ◌+◌, ◌/◌, ◌≤◌, ◌<◌, Bool, false, ◌||◌, ◌==◌, if◌then◌else◌, ◌≡◌, refl, arith, ap, ◌∙◌, inl,
  inr, Bool-cases, List, [], ◌∷◌, map, ◌++◌,
}
use osext.Scheduler.State.{
  runnable, waiting, waiting_for, Thread, Sched, Outcome, returns, resumes, panics,
}
use osext.Common.Words.{add32}
use mathlib.Core.Path.{subst}
use native.Mathlib.Nat.{div-le_self}
use osext.Scheduler.Schedule.{elapse, schedule_current_saved}
use osext.Scheduler.Calls.{
  update_thread, wait_self, wait_in, kernel_thread_wait, wait_thread_in, kernel_thread_wait_thread,
  add_in, add_kernel_thread,
}
use osext.Scheduler.Ring.{
  tally, tally-map, All-mono, All-map, has_id, IsRing, IsRing-turn, IsRing-map, Keeps, WaitsInside,
  Addressed, Bounded,
}
use osext.Scheduler.Choose.{
  Scheduled, idle, ready, deadlock, slept, schedule_current_saved-Scheduled,
}

-- The state that an operation leaves satisfies the predicate, and there was no panic.
abbrev pub After : (Sched → Type 0) → Outcome → Type 0
After P (returns s) = P s
After P (resumes s) = P s
After P (panics s) = ⊥

abbrev pub RingHolds : Outcome → Type 0
RingHolds r = After (λ s. IsRing s.ring) r

turned-IsRing :
    (ring front back : List Thread) (t : Thread)
    → IsRing ring
    → ring ≡ front ++ (t ∷ back)
    → IsRing (t ∷ (back ++ front))
turned-IsRing ring front back t h e = IsRing-turn front (t ∷ back) (subst IsRing e h)

pub elapse-Keeps : (least : ℕ) → Keeps (elapse least)
unfolding elapse
elapse-Keeps least = record {
  id = λ t. ground arith;
  main = λ t. ground arith;
  target = λ t e. ground arith;
  wait = λ t. ground arith;
}

Scheduled-IsRing :
    {gui : Bool} {s : Sched} {r : Outcome} → IsRing s.ring → Scheduled gui s r → RingHolds r
Scheduled-IsRing h (idle e) = h
Scheduled-IsRing {s = s} h (ready front t back g e q runs) = turned-IsRing s.ring front back t h e
Scheduled-IsRing {s = s} h (deadlock front t back g q w e m) = turned-IsRing s.ring front back t h e
Scheduled-IsRing {s = s} h (slept least front t back g q all found e runs) =
    turned-IsRing (map (elapse least) s.ring) front back t
      (IsRing-map (elapse least) s.ring (elapse-Keeps least) h) e

pub schedule-RingHolds :
    (gui : Bool) (s : Sched) → IsRing s.ring → RingHolds (schedule_current_saved gui s)
schedule-RingHolds gui s h = Scheduled-IsRing h (schedule_current_saved-Scheduled gui s h)

-- The first thread is changed in place.
IsRing-head :
    (t u : Thread) (ts : List Thread)
    → IsRing (t ∷ ts)
    → u.id ≡ t.id
    → u.main ≡ t.main
    → Bounded u
    → WaitsInside (t ∷ ts) u
    → IsRing (u ∷ ts)
IsRing-head t u ts h ei em b w =
    let same : (id : ℕ) → tally (has_id id) (u ∷ ts) ≡ tally (has_id id) (t ∷ ts) =
      λ id. ap (λ n. (if n == id then 1 else 0) + tally (has_id id) ts) ei in
    record {
      distinct = λ id. omega (arith, same id, h.distinct id);
      one_main = ap (λ b. (if b then 1 else 0) + tally (λ t. t.main) ts) em ∙ h.one_main;
      inside = (
        (λ e. omega (arith, w e, same u.status_data)),
        All-mono (WaitsInside (t ∷ ts)) (WaitsInside (u ∷ ts)) ts
            (λ x k e. omega (arith, k e, same x.status_data)) h.inside.1,
      );
      addressed = (omega (arith, h.addressed.0), h.addressed.1);
      bounded = (b, h.bounded.1);
    }

-- Threads are changed in place.
IsRing-update :
    (id : ℕ) (f : Thread → Thread) (ts : List Thread)
    → IsRing ts
    → ((t : Thread) → (f t).id ≡ t.id)
    → ((t : Thread) → (f t).main ≡ t.main)
    → ((t : Thread) → Bounded t → Bounded (f t))
    → ((t : Thread) → WaitsInside ts (f t))
    → IsRing (update_thread id f ts)
unfolding update_thread
IsRing-update id f ts h ki km kb kw = record {
  distinct = λ i. omega (arith, h.distinct i, same i);
  one_main = omega (arith, h.one_main, tally-map (λ t. t.main) g ts g_main);
  inside =
      All-map (WaitsInside ts) (WaitsInside (map g ts)) g ts
        (λ t w e. omega (arith, g_inside t w e, same (g t).status_data)) h.inside;
  addressed = All-map Addressed Addressed g ts (λ t a. omega (arith, a, g_id t)) h.addressed;
  bounded = All-map Bounded Bounded g ts g_bounded h.bounded;
}
  where
    g : Thread → Thread
    g t = if t.id == id then f t else t

    g_id : (t : Thread) → (g t).id ≡ t.id
    g_id t = ground (arith, ki t)

    g_main : (t : Thread) → (g t).main ≡ t.main
    g_main t = ground (arith, km t)

    g_bounded : (t : Thread) → Bounded t → Bounded (g t)
    g_bounded t b = elim (Bool-cases (t.id == id)) [ inl e ↦ rw e (kb t b) | inr e ↦ rw e b ]

    g_inside : (t : Thread) → WaitsInside ts t → WaitsInside ts (g t)
    g_inside t w = elim (Bool-cases (t.id == id)) [ inl e ↦ rw e (kw t) | inr e ↦ rw e w ]

    same : (i : ℕ) → tally (has_id i) (map g ts) ≡ tally (has_id i) ts
    same i = tally-map (has_id i) g ts (λ t. ap (λ n. n == i) (g_id t))

wait_self-RingHolds :
    (ts : List Thread) (t : Thread) (gui : Bool) (millis ticks : ℕ) (regs : List ℕ) (s : Sched)
    → IsRing s.ring
    → s.ring ≡ t ∷ ts
    → ticks < 0xfffffffe
    → RingHolds (wait_self ts t gui millis ticks regs s)
unfolding wait_self
wait_self-RingHolds [] t gui millis ticks regs s h e small = h
wait_self-RingHolds (u ∷ us) t gui millis ticks regs s h e small = schedule-RingHolds gui _ (
    IsRing-head t (record t { status = waiting; wait = add32 ticks 1; regs = regs }) (u ∷ us)
      (subst IsRing e h) refl refl (omega arith) (λ w. let x : ⊥ = cc in absurd x))

wait_in-RingHolds :
    (ts : List Thread) (gui : Bool) (t millis : ℕ) (regs : List ℕ) (s : Sched)
    → IsRing s.ring
    → s.ring ≡ ts
    → millis < 0xfffffffe
    → RingHolds (wait_in ts gui t millis regs s)
unfolding wait_in
wait_in-RingHolds [] gui t millis regs s h e small = h
wait_in-RingHolds (r ∷ rs) gui t millis regs s h e small =
    let ticks = millis / s.timeslice in
    let few : ticks < 0xfffffffe = omega (arith, div-le_self millis s.timeslice) in
    elim (Bool-cases (t == 0)) [
      | inl c ↦ rw c h
      | inr c ↦ rw c (elim (Bool-cases (ticks == 0)) [
        | inl d ↦ rw d h
        | inr d ↦ rw d (elim (Bool-cases (t == r.id)) [
          | inl f ↦ rw f (wait_self-RingHolds rs r gui millis ticks regs s h e few)
          | inr f ↦ rw f (
              IsRing-update t (λ u. record u { status = waiting; wait = ticks }) (r ∷ rs)
                (subst IsRing e h) (λ u. refl) (λ u. refl) (λ u b. omega (arith, few))
                (λ u w. let x : ⊥ = cc in absurd x))
        ])
      ])
    ]

wait_thread_in-RingHolds :
    (ts : List Thread) (gui : Bool) (t wait_for : ℕ) (regs : List ℕ) (s : Sched)
    → IsRing s.ring
    → s.ring ≡ ts
    → 1 ≤ tally (has_id wait_for) ts
    → RingHolds (wait_thread_in ts gui t wait_for regs s)
unfolding wait_thread_in
wait_thread_in-RingHolds [] gui t wait_for regs s h e there = h
wait_thread_in-RingHolds (r ∷ rs) gui t wait_for regs s h e there =
    elim (Bool-cases ((t == 0) || ((wait_for == 0) || (t == wait_for)))) [
      | inl c ↦ rw c h
      | inr c ↦ rw c (elim (Bool-cases (t == r.id)) [
        | inl f ↦ rw f (
            schedule-RingHolds gui _ (
              IsRing-head r (record r { status = waiting_for; status_data = wait_for; regs = regs })
                rs (subst IsRing e h) refl refl (subst IsRing e h).bounded.0 (λ w. there)))
        | inr f ↦ rw f (
            IsRing-update t (λ u. record u { status = waiting_for; status_data = wait_for })
              (r ∷ rs) (subst IsRing e h) (λ u. refl) (λ u. refl) (λ u b. b) (λ u w. there))
      ])
    ]

-- A ring with a new thread.
IsRing-add :
    (r t : Thread) (ts : List Thread)
    → IsRing (r ∷ ts)
    → 0 < t.id
    → tally (has_id t.id) (r ∷ ts) ≡ 0
    → t.main ≡ false
    → t.status ≡ runnable
    → Bounded t
    → IsRing (r ∷ (t ∷ ts))
IsRing-add r t ts h a new m st b = record {
  distinct = λ id. ground (arith, h.distinct id);
  one_main = ground (arith, h.one_main);
  inside = (
    (λ e. omega (arith, h.inside.0 e)),
    (
      (λ e. absurd (let x : ⊥ = ground arith in x)),
      All-mono (WaitsInside (r ∷ ts)) (WaitsInside (r ∷ (t ∷ ts))) ts (λ x k e. omega (arith, k e))
          h.inside.1,
    ),
  );
  addressed = (h.addressed.0, (a, h.addressed.1));
  bounded = (h.bounded.0, (b, h.bounded.1));
}

add_in-IsRing :
    (ts : List Thread) (t : Thread) (s : Sched)
    → IsRing s.ring
    → s.ring ≡ ts
    → tally (has_id t.id) ts ≡ 0
    → t.main ≡ false
    → t.status ≡ runnable
    → Bounded t
    → IsRing (add_in ts t s).ring
unfolding add_in
add_in-IsRing [] t s h e new m st b = h
add_in-IsRing (r ∷ rs) t s h e new m st b = elim (Bool-cases (t.id == 0)) [
  | inl c ↦ rw c h
  | inr c ↦ rw c (IsRing-add r t rs (subst IsRing e h) (ground arith) new m st b)
]

-- The calls by which threads wait and are added keep the ring good on every path, also through the
-- scheduler, and none panics: a wait of less than 0xfffffffe milliseconds, a wait for a thread of
-- the ring, and adding a runnable thread that is not the main one at an address not in use.
pub calls-RingHolds :
    (gui : Bool) (t millis wait_for : ℕ) (new : Thread) (regs : List ℕ) (s : Sched)
    → IsRing s.ring
    → millis < 0xfffffffe
    → 1 ≤ tally (has_id wait_for) s.ring
    → tally (has_id new.id) s.ring ≡ 0
    → new.main ≡ false
    → new.status ≡ runnable
    → Bounded new
    → RingHolds (kernel_thread_wait gui t millis regs s)
      × RingHolds (kernel_thread_wait_thread gui t wait_for regs s)
      × IsRing (add_kernel_thread new s).ring
unfolding kernel_thread_wait kernel_thread_wait_thread add_kernel_thread
calls-RingHolds gui t millis wait_for new regs s h small there unused not_main runs b = (
  wait_in-RingHolds s.ring gui t millis regs s h refl small,
  wait_thread_in-RingHolds s.ring gui t wait_for regs s h refl there,
  add_in-IsRing s.ring new s h refl unused not_main runs b,
)
