-- ===== src/Scheduler/Ring.antt =====
-- Counting and turning the threads of a ring, and what a ring satisfies.
use osext.Common.{
  ℕ, ◌+◌, ◌≤◌, ◌<◌, Bool, true, ◌||◌, ◌==◌, if◌then◌else◌, ◌≡◌, refl, arith, ap, List, [], ◌∷◌, map,
  ◌++◌,
}
use osext.Scheduler.State.{Thread, is_waiting_for}
use osext.Scheduler.Schedule.{any_thread}

-- How many threads pass the test.
abbrev pub tally : (Thread → Bool) → List Thread → ℕ
tally test [] = 0
tally test (t ∷ ts) = (if test t then 1 else 0) + tally test ts

abbrev pub All : (Thread → Type 0) → List Thread → Type 0
All P [] = Unit
All P (t ∷ ts) = P t × All P ts

pub tally-append :
    (test : Thread → Bool) (xs ys : List Thread)
    → tally test (xs ++ ys) ≡ tally test xs + tally test ys
tally-append test [] ys = omega arith
tally-append test (x ∷ xs) ys = omega (arith, tally-append test xs ys)

pub tally-map :
    (test : Thread → Bool) (f : Thread → Thread) (xs : List Thread)
    → ((t : Thread) → test (f t) ≡ test t)
    → tally test (map f xs) ≡ tally test xs
tally-map test f [] h = refl
tally-map test f (x ∷ xs) h = rw (h x) (omega (arith, tally-map test f xs h))

pub All-append :
    (P : Thread → Type 0) (xs ys : List Thread) → All P xs → All P ys → All P (xs ++ ys)
All-append P [] ys h k = k
All-append P (x ∷ xs) ys h k = (h.0, All-append P xs ys h.1 k)

pub All-split : (P : Thread → Type 0) (xs ys : List Thread) → All P (xs ++ ys) → All P xs × All P ys
All-split P [] ys h = (tt, h)
All-split P (x ∷ xs) ys h = let r = All-split P xs ys h.1 in ((h.0, r.0), r.1)

pub All-mono :
    (P Q : Thread → Type 0) (xs : List Thread) → ((t : Thread) → P t → Q t) → All P xs → All Q xs
All-mono P Q [] f h = tt
All-mono P Q (x ∷ xs) f h = (f x h.0, All-mono P Q xs f h.1)

pub All-map :
    (P Q : Thread → Type 0) (f : Thread → Thread) (xs : List Thread)
    → ((t : Thread) → P t → Q (f t))
    → All P xs
    → All Q (map f xs)
All-map P Q f [] k h = tt
All-map P Q f (x ∷ xs) k h = (k x h.0, All-map P Q f xs k h.1)

pub any_thread-append :
    (test : Thread → Bool) (xs ys : List Thread)
    → any_thread test (xs ++ ys) ≡ (any_thread test xs || any_thread test ys)
unfolding any_thread
any_thread-append test [] ys = refl
any_thread-append test (x ∷ xs) ys = ground (arith, any_thread-append test xs ys)

abbrev pub has_id : ℕ → Thread → Bool
has_id id t = t.id == id

-- A thread that waits for another waits for one of the ring.
abbrev pub WaitsInside : List Thread → Thread → Type 0
WaitsInside ring t = is_waiting_for t ≡ true → 1 ≤ tally (has_id t.status_data) ring

abbrev pub Addressed : Thread → Type 0
Addressed t = 0 < t.id

abbrev pub Bounded : Thread → Type 0
Bounded t = t.wait < 0xffffffff

-- The threads have different addresses other than 0, one is the main thread, none waits for a
-- thread that is not there, and no wait is as long as the number that stands for none.
pub record IsRing (ring : List Thread) : Type 0 where
  pub distinct : (id : ℕ) → tally (has_id id) ring ≤ 1
  pub one_main : tally (λ t. t.main) ring ≡ 1
  pub inside : All (WaitsInside ring) ring
  pub addressed : All Addressed ring
  pub bounded : All Bounded ring

-- Turning the ring keeps all this.
pub IsRing-turn : (xs ys : List Thread) → IsRing (xs ++ ys) → IsRing (ys ++ xs)
IsRing-turn xs ys h =
    let a = All-split Addressed xs ys h.addressed in
    let b = All-split Bounded xs ys h.bounded in
    let c = All-split (WaitsInside (xs ++ ys)) xs ys h.inside in
    record {
      distinct = λ id.
          omega
            (arith, h.distinct id, tally-append (has_id id) xs ys, tally-append (has_id id) ys xs);
      one_main =
          omega
            (arith, h.one_main, tally-append (λ t. t.main) xs ys, tally-append (λ t. t.main) ys xs);
      inside =
          All-mono (WaitsInside (xs ++ ys)) (WaitsInside (ys ++ xs)) (ys ++ xs)
            (λ t k w. omega (
              arith,
              k w,
              tally-append (has_id t.status_data) xs ys,
              tally-append (has_id t.status_data) ys xs,
            ))
            (All-append (WaitsInside (xs ++ ys)) ys xs c.1 c.0);
      addressed = All-append Addressed ys xs a.1 a.0;
      bounded = All-append Bounded ys xs b.1 b.0;
    }

-- What a change to single threads may do.
pub record Keeps (f : Thread → Thread) : Type 0 where
  pub id : (t : Thread) → (f t).id ≡ t.id
  pub main : (t : Thread) → (f t).main ≡ t.main
  pub target :
      (t : Thread)
      → is_waiting_for (f t) ≡ true
      → (is_waiting_for t ≡ true) × ((f t).status_data ≡ t.status_data)
  pub wait : (t : Thread) → (f t).wait ≤ t.wait

pub IsRing-map : (f : Thread → Thread) (xs : List Thread) → Keeps f → IsRing xs → IsRing (map f xs)
IsRing-map f xs k h = record {
  distinct = λ id. omega (arith, h.distinct id, same_id id);
  one_main = omega (arith, h.one_main, tally-map (λ t. t.main) f xs k.main);
  inside =
      All-map (WaitsInside xs) (WaitsInside (map f xs)) f xs
        (λ t w e. omega (
          arith,
          w (k.target t e).0,
          same_id (f t).status_data,
          ap (λ n. tally (has_id n) xs) (k.target t e).1,
        ))
        h.inside;
  addressed = All-map Addressed Addressed f xs (λ t a. omega (arith, k.id t)) h.addressed;
  bounded = All-map Bounded Bounded f xs (λ t a. omega (arith, k.wait t)) h.bounded;
}
  where
    same_id : (id : ℕ) → tally (has_id id) (map f xs) ≡ tally (has_id id) xs
    same_id id = tally-map (has_id id) f xs (λ t. ap (λ n. n == id) (k.id t))
