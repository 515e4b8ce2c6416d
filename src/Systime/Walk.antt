-- ===== src/Systime/Walk.antt =====
-- The loops that split a time.
use osext.Common.{
  ℕ, zero, suc, ◌+◌, ◌-◌, ◌*◌, ◌^◌, ◌≤◌, ◌<◌, true, false, leb, ◌≡◌, arith, ap, ◌∙◌, inl, inr,
  Bool-cases, sym, some,
}
use mathlib.Core.Path.{subst}
use osext.Systime.Calendar.{walk, days_in_year, days_in_month, year_seconds, month_seconds}

-- The seconds of `j` rounds from `n` on.
unfoldable pub span : (ℕ → ℕ) → (n j : ℕ) → ℕ
span len n zero = 0
span len n (suc j) = len n + span len (n + 1) j

-- `unix` is split into whole rounds from `n` on, and a rest that is not 0.
pub record Walked (len : ℕ → ℕ) (fuel unix n : ℕ) : Type 0 where
  pub steps : ℕ
  pub rest : ℕ
  pub enough : steps < fuel
  pub result : walk len fuel unix n ≡ some (n + steps, rest)
  pub rest_pos : 0 < rest
  pub rest_le : rest ≤ len (n + steps)
  pub total : unix ≡ span len n steps + rest

leb_le : (a b : ℕ) → leb a b ≡ true → a ≤ b
leb_le a b e = ground arith

leb_gt : (a b : ℕ) → leb a b ≡ false → b < a
leb_gt a b e = ground arith

pub walk-Walked :
    (len : ℕ → ℕ) (fuel unix n : ℕ)
    → 0 < unix
    → unix ≤ span len n fuel
    → n + fuel < 2 ^ 32
    → Walked len fuel unix n
unfolding walk span
walk-Walked len zero unix n p h b = absurd (omega (arith, p, h))
walk-Walked len (suc fuel) unix n p h b = elim (Bool-cases (leb unix (len n))) [
  | inl e ↦ record {
    steps = 0;
    rest = unix;
    enough = omega arith;
    result = rw (e, walk) (ap (λ x. some (x, unix)) (omega arith));
    rest_pos = p;
    rest_le = subst (λ x. unix ≤ len x) (omega arith) (leb_le unix (len n) e);
    total = omega arith;
  }
  | inr e ↦
      let w =
        walk-Walked len fuel (unix - len n) (n + 1) (ground arith) (ground arith) (omega arith) in
      record {
        steps = suc w.steps;
        rest = w.rest;
        enough = omega (arith, w.enough);
        result =
            rw (e, walk)
              (ap (walk len fuel (unix - len n)) (omega (arith, b))
                ∙ w.result
                ∙ ap (λ x. some (x, w.rest)) (omega arith));
        rest_pos = w.rest_pos;
        rest_le = subst (λ x. w.rest ≤ len x) (omega arith) w.rest_le;
        total = omega (arith, w.total, leb_gt unix (len n) e);
      }
]

pub span_const : (c n j : ℕ) → span (λ _. c) n j ≡ j * c
unfolding span
span_const c n zero = omega arith
span_const c n (suc j) = grind (arith, span_const c (n + 1) j)

pub le-span_const : (c n j x : ℕ) → x ≤ j * c → x ≤ span (λ _. c) n j
le-span_const c n j x h = subst (λ m. x ≤ m) (sym (span_const c n j)) h

-- A month has at most 31 days.
pub month_seconds_le : (y m : ℕ) → month_seconds y m ≤ 2678400
unfolding month_seconds days_in_month
month_seconds_le y m = ground arith

-- A year has at least 365 days.
pub span_years : (n j : ℕ) → j * 31536000 ≤ span year_seconds n j
unfolding span year_seconds days_in_year
span_years n zero = omega arith
span_years n (suc j) = ground (arith, span_years (n + 1) j)

-- The twelve months make a year.
pub span_months : (y : ℕ) → span (month_seconds y) 1 12 ≡ year_seconds y
unfolding span month_seconds year_seconds days_in_year days_in_month
span_months y = ground arith
