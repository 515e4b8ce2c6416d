-- ===== src/Scheduler/Release.antt =====
-- The ring that is left when a thread goes, and the threads that it releases.
use osext.Common.{
  ℕ, ◌+◌, Bool, true, false, ◌==◌, if◌then◌else◌, ◌≡◌, ◌≢◌, arith, ap, ◌∙◌, List, [], ◌∷◌, map,
  ◌++◌,
}
use osext.Scheduler.State.{Thread, is_waiting_for}
use mathlib.Core.Path.{subst}
use osext.Scheduler.Calls.{release}
use osext.Scheduler.Schedule.{elapse}
use osext.Scheduler.Ring.{
  tally, tally-append, tally-map, All, All-append, All-split, All-map, has_id, IsRing, IsRing-turn,
  IsRing-map, WaitsInside, Addressed, Bounded,
}
use osext.Scheduler.Keep.{elapse-Keeps}

-- The thread does not wait for the one at the address.
abbrev pub WaitsNotFor : ℕ → Thread → Type 0
WaitsNotFor gone t = is_waiting_for t ≡ true → t.status_data ≢ gone

pub release-WaitsInside :
    (gone : ℕ) (ring rest : List Thread) (t : Thread)
    → ((id : ℕ) → id ≢ gone → tally (has_id id) rest ≡ tally (has_id id) ring)
    → WaitsInside ring t
    → WaitsInside rest (release gone t)
unfolding release
release-WaitsInside gone ring rest t same w e = ground (arith, w, same t.status_data)

pub release-WaitsNotFor : (gone : ℕ) (t : Thread) → WaitsNotFor gone (release gone t)
unfolding release
release-WaitsNotFor gone t e = ground arith

pub release-id : (gone : ℕ) (t : Thread) → (release gone t).id ≡ t.id
unfolding release
release-id gone t = ground arith

pub release-main : (gone : ℕ) (t : Thread) → (release gone t).main ≡ t.main
unfolding release
release-main gone t = ground arith

pub release-wait : (gone : ℕ) (t : Thread) → (release gone t).wait ≡ t.wait
unfolding release
release-wait gone t = ground arith

pub All-unit : (ts : List Thread) → All (λ t. Unit) ts
All-unit [] = tt
All-unit (t ∷ ts) = (tt, All-unit ts)

pub not_one : {b : Bool} → b ≡ false → ◌≡◌ {A = ℕ} (if b then 1 else 0) 0
not_one h = ground arith

-- The ring without one of its threads, and the others released.
pub record IsLeft (gone : Thread) (ring : List Thread) : Type 0 where
  pub good : IsRing ring
  pub left : tally (has_id gone.id) ring ≡ 0
  pub free : All (WaitsNotFor gone.id) ring

pub release-IsLeft :
    (gone : Thread) (front back : List Thread)
    → IsRing (front ++ (gone ∷ back))
    → gone.main ≡ false
    → IsLeft gone (map (release gone.id) (front ++ back))
release-IsLeft gone front back h m = record {
  good = record {
    distinct = λ i. omega (arith, same i, both (has_id i), h.distinct i);
    one_main = omega (
      arith,
      h.one_main,
      both (λ t. t.main),
      tally-map (λ t. t.main) (release gone.id) (front ++ back) (release-main gone.id),
      not_one m,
    );
    inside =
        All-map (WaitsInside ring) (WaitsInside rest) (release gone.id) (front ++ back)
          (λ t w.
            release-WaitsInside gone.id ring rest t
              (λ i ne. omega (arith, same i, both (has_id i), other i ne)) w)
          (All-append (WaitsInside ring) front back inside.0 inside.1.1);
    addressed =
        All-map Addressed Addressed (release gone.id) (front ++ back)
          (λ t a. omega (arith, a, release-id gone.id t))
          (All-append Addressed front back addressed.0 addressed.1.1);
    bounded =
        All-map Bounded Bounded (release gone.id) (front ++ back)
          (λ t a. omega (arith, a, release-wait gone.id t))
          (All-append Bounded front back bounded.0 bounded.1.1);
  };
  left = omega (arith, same gone.id, both (has_id gone.id), h.distinct gone.id, self);
  free =
      All-map (λ t. Unit) (WaitsNotFor gone.id) (release gone.id) (front ++ back)
        (λ t u. release-WaitsNotFor gone.id t) (All-unit (front ++ back));
}
  where
    ring : List Thread
    ring = front ++ (gone ∷ back)

    rest : List Thread
    rest = map (release gone.id) (front ++ back)

    inside : All (WaitsInside ring) front × All (WaitsInside ring) (gone ∷ back)
    inside = All-split (WaitsInside ring) front (gone ∷ back) h.inside

    addressed : All Addressed front × All Addressed (gone ∷ back)
    addressed = All-split Addressed front (gone ∷ back) h.addressed

    bounded : All Bounded front × All Bounded (gone ∷ back)
    bounded = All-split Bounded front (gone ∷ back) h.bounded

    same : (i : ℕ) → tally (has_id i) rest ≡ tally (has_id i) (front ++ back)
    same i =
        tally-map (has_id i) (release gone.id) (front ++ back)
          (λ t. ap (λ n. n == i) (release-id gone.id t))

    both :
        (test : Thread → Bool)
        → tally test ring ≡ (if test gone then 1 else 0) + tally test (front ++ back)
    both test = omega (arith, tally-append test front (gone ∷ back), tally-append test front back)

    other : (i : ℕ) → i ≢ gone.id → ◌≡◌ {A = ℕ} (if gone.id == i then 1 else 0) 0
    other i ne = ground arith

    self : ◌≡◌ {A = ℕ} (if gone.id == gone.id then 1 else 0) 1
    self = ground arith

pub WaitsNotFor-elapse :
    (gone least : ℕ) (t : Thread) → WaitsNotFor gone t → WaitsNotFor gone (elapse least t)
unfolding elapse
WaitsNotFor-elapse gone least t w e = ground (arith, w)

pub IsLeft-turn :
    (gone : Thread) (ring front back : List Thread) (t : Thread)
    → IsLeft gone ring
    → ring ≡ front ++ (t ∷ back)
    → IsLeft gone (t ∷ (back ++ front))
IsLeft-turn gone ring front back t h e =
    let k = subst (IsLeft gone) e h in
    let parts = All-split (WaitsNotFor gone.id) front (t ∷ back) k.free in
    record {
      good = IsRing-turn front (t ∷ back) k.good;
      left = omega (
        arith,
        k.left,
        tally-append (has_id gone.id) front (t ∷ back),
        tally-append (has_id gone.id) back front,
      );
      free = All-append (WaitsNotFor gone.id) (t ∷ back) front parts.1 parts.0;
    }

pub IsLeft-elapse :
    (gone : Thread) (least : ℕ) (ring : List Thread)
    → IsLeft gone ring
    → IsLeft gone (map (elapse least) ring)
IsLeft-elapse gone least ring h = record {
  good = IsRing-map (elapse least) ring (elapse-Keeps least) h.good;
  left =
      tally-map (has_id gone.id) (elapse least) ring
        (λ t. ap (λ n. n == gone.id) ((elapse-Keeps least).id t))
      ∙ h.left;
  free =
      All-map (WaitsNotFor gone.id) (WaitsNotFor gone.id) (elapse least) ring
        (WaitsNotFor-elapse gone.id least) h.free;
}
