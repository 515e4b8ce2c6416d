-- ===== src/Scheduler/Searches.antt =====
-- The two searches of the scheduler, for a thread and for the least wait.
use osext.Common.{
  ℕ, ◌≤◌, Bool, true, false, ◌&&◌, ◌||◌, ◌==◌, ◌≡◌, refl, arith, ◌∙◌, ◌⊎◌, inl, inr, Bool-cases,
  List, [], ◌∷◌, Option, none, some, ◌++◌,
}
use osext.Scheduler.State.{Thread, is_waiting}
use mathlib.Core.Path.{subst}
use mathlib.Core.List.{append-nil, append_assoc}
use osext.Scheduler.Schedule.{rotate_to, any_thread, shortest_wait, shorter}
use osext.Scheduler.Ring.{All, any_thread-append}

-- The ring turned to its first thread that passes the test, if there is one.
pub data Search (test : Thread → Bool) (ring : List Thread) : Option (List Thread) → Type 0 where
  absent : any_thread test ring ≡ false → Search test ring none
  first :
      (front : List Thread) (t : Thread) (back : List Thread)
      → any_thread test front ≡ false
      → test t ≡ true
      → ring ≡ front ++ (t ∷ back)
      → Search test ring (some (t ∷ (back ++ front)))

pub rotate_to-Search :
    (test : Thread → Bool) (seen ts : List Thread)
    → any_thread test seen ≡ false
    → Search test (seen ++ ts) (rotate_to test seen ts)
unfolding rotate_to any_thread
rotate_to-Search test seen [] h = absent (rw append-nil h)
rotate_to-Search test seen (t ∷ ts) h = elim (Bool-cases (test t)) [
  | inl e ↦ rw e (first seen t ts h e refl)
  | inr e ↦ rw e (
      subst (λ ring. Search test ring (rotate_to test (seen ++ t ∷ []) ts))
        (append_assoc seen (t ∷ []) ts)
        (rotate_to-Search test (seen ++ t ∷ []) ts
          (any_thread-append test seen (t ∷ []) ∙ ground arith)))
]

-- The least wait, and a thread that has it.
abbrev pub is_least : ℕ → ℕ → Thread → Bool
is_least least who t = is_waiting t && ((t.wait == least) && (t.id == who))

abbrev pub AtLeast : ℕ → Thread → Type 0
AtLeast least t = is_waiting t ≡ true → least ≤ t.wait

-- What the search for the least wait returns, from `best` on.
pub record Least (ts : List Thread) (best r : ℕ × ℕ) : Type 0 where
  pub below : r.0 ≤ best.0
  pub least : All (AtLeast r.0) ts
  pub found : (r ≡ best) ⊎ (any_thread (is_least r.0 r.1) ts ≡ true)

pub shorter-lem :
    (running : ℕ) (best : ℕ × ℕ) (t : Thread)
    → let b = shorter running best t in
      (b.0 ≤ best.0) × AtLeast b.0 t × ((b ≡ best) ⊎ (is_least b.0 b.1 t ≡ true))
unfolding shorter
shorter-lem running (least, who) t = ground arith

pub shortest_wait-Least :
    (running : ℕ) (best : ℕ × ℕ) (ts : List Thread) → Least ts best (shortest_wait running best ts)
unfolding shortest_wait any_thread
shortest_wait-Least running best [] = record { below = omega arith; least = tt; found = inl refl }
shortest_wait-Least running best (t ∷ ts) =
    let b = shorter running best t in
    let step = shorter-lem running best t in
    let rest = shortest_wait-Least running b ts in
    record {
      below = omega (arith, step.0, rest.below);
      least = ((λ w. omega (arith, step.1 w, rest.below)), rest.least);
      found =
          found_in t best (shorter running best t) (shortest_wait running b ts) ts step.2
            rest.found;
    }
  where
    found_in :
        (t : Thread) (best b r : ℕ × ℕ) (ts : List Thread)
        → (b ≡ best) ⊎ (is_least b.0 b.1 t ≡ true)
        → (r ≡ b) ⊎ (any_thread (is_least r.0 r.1) ts ≡ true)
        → (r ≡ best) ⊎ ((is_least r.0 r.1 t || any_thread (is_least r.0 r.1) ts) ≡ true)
    found_in t best b r ts (inl e) (inl f) = inl (f ∙ e)
    found_in t best b r ts (inr e) (inl f) = inr (rw f (rw e))
    found_in t best b r ts s (inr f) = inr (rw f (ground arith))
