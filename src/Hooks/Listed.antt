-- ===== src/Hooks/Listed.antt =====
-- The registered functions as a list.
use osext.Common.{
  ℕ, zero, suc, ◌+◌, ◌-◌, ◌<◌, Bool, true, false, not, ◌==◌, ◌&&◌, ltb, leb, if◌then◌else◌, List,
  [], ◌∷◌, ◌++◌, ◌≡◌, refl, ap, ◌∙◌, sym, arith, Bool-cases, inl, inr,
}
use osext.Hooks.{
  Functions, register_function, move_down, remove_at, unregister_from, unregister_function,
}

-- The `n` functions from index `i` on.
abbrev from_index : (f : ℕ → ℕ) (n i : ℕ) → List ℕ
from_index f zero i = []
from_index f (suc n) i = f i ∷ from_index f n (i + 1)

abbrev pub registered : Functions → List ℕ
registered h = from_index h.functions h.num 0

-- Without the first occurrence, and whether there is one.
abbrev pub without : ℕ → List ℕ → List ℕ
without x [] = []
without x (y ∷ ys) = let rest = without x ys in if y == x then ys else y ∷ rest

abbrev pub has : ℕ → List ℕ → Bool
has x [] = false
has x (y ∷ ys) = let rest = has x ys in if y == x then true else rest

from_index-same :
    (f g : ℕ → ℕ) (n i j : ℕ)
    → ((k : ℕ) → k < n → f (i + k) ≡ g (j + k))
    → from_index f n i ≡ from_index g n j
from_index-same f g zero i j h = refl
from_index-same f g (suc n) i j h =
    let a : i + 0 ≡ i = omega arith in
    let b : j + 0 ≡ j = omega arith in
    let first : f i ≡ g j = ap f (sym a) ∙ h 0 (omega arith) ∙ ap g b in
    rw
      (
        first,
        from_index-same f g n (i + 1) (j + 1)
            (λ k l. ap f (omega arith) ∙ h (suc k) (omega arith) ∙ ap g (omega arith)),
      )
      refl

-- The first `n` functions and the `m` behind them.
from_index-split :
    (f : ℕ → ℕ) (n m i : ℕ) → from_index f (n + m) i ≡ from_index f n i ++ from_index f m (i + n)
from_index-split f zero m i =
    let a : 0 + m ≡ m = omega arith in let b : i + 0 ≡ i = omega arith in rw (a, b) refl
from_index-split f (suc n) m i =
    let a : suc n + m ≡ suc (n + m) = omega arith in
    let b : i + suc n ≡ i + 1 + n = omega arith in
    rw (a, b) (ap (λ l. f i ∷ l) (from_index-split f n m (i + 1)))

append_then : (xs : List ℕ) (y : ℕ) (ys : List ℕ) → (xs ++ (y ∷ [])) ++ ys ≡ xs ++ (y ∷ ys)
append_then [] y ys = refl
append_then (x ∷ xs) y ys = ap (λ l. x ∷ l) (append_then xs y ys)

append_none : (xs : List ℕ) → xs ++ [] ≡ xs
append_none [] = refl
append_none (x ∷ xs) = ap (λ l. x ∷ l) (append_none xs)

move_down_lem :
    (n a : ℕ) (f : ℕ → ℕ) (j : ℕ)
    → move_down n a f j ≡ (if leb a j && ltb j (a + n) then f (j + 1) else f j)
unfolding move_down
move_down_lem zero a f j = ground arith
move_down_lem (suc n) a f j =
    let next : j ≡ a → f (a + 1) ≡ f (j + 1) = λ q. ap (λ x. f (x + 1)) (sym q) in
    move_down_lem n (a + 1) (λ i. if i == a then f (a + 1) else f i) j ∙ ground (arith, next)

remove_at_lem :
    (i n : ℕ) (h : Functions)
    → h.num ≡ i + suc n
    → registered (remove_at i h) ≡ from_index h.functions i 0 ++ from_index h.functions n (i + 1)
unfolding remove_at
remove_at_lem i n h e =
    let new = (remove_at i h).functions in
    let size : h.num - 1 ≡ i + n = omega (arith, e) in
    let left : h.num - 1 - i ≡ n = omega (arith, e) in
    let at : (j : ℕ)
        → j < i + n
        → new j ≡ (if leb i j then h.functions (j + 1) else h.functions j) =
      λ j l.
        let inside : (j == h.num - 1) ≡ false = ground (arith, size, l) in
        rw inside (move_down_lem (h.num - 1 - i) i h.functions j ∙ ground (arith, left, l)) in
    let behind : (k : ℕ)
        → (if leb i (0 + i + k) then h.functions (0 + i + k + 1) else h.functions (0 + i + k))
          ≡ h.functions (i + 1 + k) =
      λ k. let c : leb i (0 + i + k) ≡ true = ground arith in rw c (ap h.functions (omega arith)) in
    ap (λ m. from_index new m 0) size
    ∙ from_index-split new i n 0
    ∙ rw
        (
          from_index-same new h.functions i 0 0
              (λ k l. at (0 + k) (omega (arith, l)) ∙ ground (arith, l)),
          from_index-same new h.functions n (0 + i) (i + 1)
              (λ k l. at (0 + i + k) (omega (arith, l)) ∙ behind k),
        )
        refl

unregister_from_lem :
    (x n i : ℕ) (h : Functions)
    → h.num ≡ i + n
    → let r = unregister_from x n i h in
      (r.0 ≡ has x (from_index h.functions n i))
      × (registered r.1 ≡ from_index h.functions i 0 ++ without x (from_index h.functions n i))
unfolding unregister_from
unregister_from_lem x zero i h e = (
  refl,
  ap (λ m. from_index h.functions m 0) (omega (arith, e))
      ∙ sym (append_none (from_index h.functions i 0)),
)
unregister_from_lem x (suc n) i h e = elim (Bool-cases (h.functions i == x)) [
  | inl here ↦ rw here (refl, remove_at_lem i n h e)
  | inr other ↦
      let r = unregister_from_lem x n (i + 1) h (omega (arith, e)) in
      rw other (
        r.0,
        r.1
            ∙ ap (λ l. l ++ without x (from_index h.functions n (i + 1)))
                (from_index-split h.functions i 1 0)
            ∙ append_then (from_index h.functions i 0) (h.functions (0 + i)) _
            ∙ ap
                (λ k.
                  from_index h.functions i 0
                  ++ (h.functions k ∷ without x (from_index h.functions n (i + 1))))
                (omega arith),
      )
]

register_lem :
    (function : ℕ) (h : Functions)
    → from_index (λ i. if i == h.num then function else h.functions i) (h.num + 1) 0
      ≡ registered h ++ (function ∷ [])
register_lem function h =
    let new : ℕ → ℕ = λ i. if i == h.num then function else h.functions i in
    let own : (0 + h.num == h.num) ≡ true = ground arith in
    from_index-split new h.num 1 0
    ∙ rw own (
        ap (λ l. l ++ (function ∷ []))
          (from_index-same new h.functions h.num 0 0
            (λ k l. let c : (0 + k == h.num) ≡ false = ground (arith, l) in rw c refl)))

-- The array with its number stands for the list of the registered functions: registering a function
-- puts it at the end, and succeeds with fewer than 99 functions; unregistering takes its first
-- occurrence out, keeps the others in order, and succeeds if there is one. NULL does neither.
pub unregister-without :
    (function : ℕ) (h : Functions)
    → let added = register_function function h in
      let removed = unregister_function function h in
      let possible = not (function == 0) in
      (added.0 ≡ possible && ltb h.num 99)
      × (registered added.1
          ≡ (if possible && ltb h.num 99 then registered h ++ (function ∷ []) else registered h))
      × (removed.0 ≡ possible && has function (registered h))
      × (registered removed.1
          ≡ (if possible then without function (registered h) else registered h))
unfolding register_function unregister_function
unregister-without function h = elim (Bool-cases (function == 0)) [
  | inl z ↦ rw z (refl, refl, refl, refl)
  | inr nz ↦
      let r = unregister_from_lem function h.num 0 h (omega arith) in
      elim (Bool-cases (ltb h.num 99)) [
        | inr full ↦ rw (nz, full) (refl, refl, r.0, r.1)
        | inl room ↦ rw (nz, room) (refl, register_lem function h, r.0, r.1)
      ]
]
