-- ===== src/Virtual/Words.antt =====
-- The words of the descriptors, and what a write to the memory does to a translation.
use osext.Common.{
  ℕ, ◌+◌, ◌*◌, ◌/◌, ◌%◌, ◌^◌, ◌≤◌, ◌<◌, ◌==◌, ◌≡◌, ◌≢◌, refl, sym, ap, ◌∙◌, arith, bit_or,
  Bool-cases, inl, inr, ==_iff,
}
use osext.Common.Bits.{bit_or-lt, bit_or-disjoint, bit_or-mod_four}
use osext.Virtual.Descriptors.{new_cptd, new_spd}
use osext.Virtual.Space.{translate}

pub new_cptd_lem : (base : ℕ) → new_cptd 0 base ≡ base / 1024 * 1024 + 17
unfolding new_cptd
new_cptd_lem base = omega (arith, bit_or-disjoint 10 17 (base / 1024) (omega arith))

-- The part of a small page's descriptor below its address.
low_spd : (c b ap : ℕ) → ℕ
low_spd c b ap = bit_or (bit_or (bit_or 2 (c % 2 * 8)) (b % 2 * 4)) (ap * 16)

low_spd-lt : (c b ap : ℕ) → ap < 256 → low_spd c b ap < 2 ^ 12
unfolding low_spd
low_spd-lt c b ap h =
    bit_or-lt 12 _ _ (bit_or-lt 12 _ _ (bit_or-lt 12 _ _ (omega arith) (omega arith)) (omega arith))
      (omega arith)

low_spd-mod_four : (c b ap : ℕ) → low_spd c b ap % 4 ≡ 2
unfolding low_spd
low_spd-mod_four c b ap =
    bit_or-mod_four _ (ap * 16) (omega arith)
    ∙ bit_or-mod_four _ (b % 2 * 4) (omega arith)
    ∙ bit_or-mod_four 2 (c % 2 * 8) (omega arith)

pub new_spd_lem :
    (c b ap base : ℕ)
    → ap < 256
    → (new_spd c b ap base % 4 ≡ 2) × (new_spd c b ap base / 4096 * 4096 ≡ base / 4096 * 4096)
unfolding new_spd low_spd
new_spd_lem c b ap base h =
    let e = bit_or-disjoint 12 (low_spd c b ap) (base / 4096) (low_spd-lt c b ap h) in
    (omega (arith, e, low_spd-mod_four c b ap), omega (arith, e, low_spd-lt c b ap h))

-- In the same page, a translation goes by the offset.
pub translate-offset :
    (words table : ℕ → ℕ) (v d : ℕ)
    → v % 1024 ≡ 0
    → d < 1024
    → translate words table v ≢ 0
    → translate words table (v + d) ≡ translate words table v + d
unfolding translate
translate-offset words table v d a l n =
    let s : (v + d) / 2 ^ 20 ≡ v / 2 ^ 20 = omega arith in
    let p : (v + d) / 4096 ≡ v / 4096 = omega arith in rw (s, p) (ground arith)

-- A translation depends on one descriptor and, where that is of a coarse table, on one word.
pub translate-same :
    (words words' table table' : ℕ → ℕ) (a : ℕ)
    → table (a / 2 ^ 20) ≡ table' (a / 2 ^ 20)
    → (table (a / 2 ^ 20) % 4 ≡ 1
        → let q = table (a / 2 ^ 20) / 1024 * 1024 + 4 * (a / 4096 % 256) in words q ≡ words' q)
    → translate words table a ≡ translate words' table' a
unfolding translate
translate-same words words' table table' a e h =
    rw (sym e) (elim (Bool-cases (table (a / 2 ^ 20) % 4 == 1)) [
      | inl c ↦ let w = h ((==_iff (table (a / 2 ^ 20) % 4) 1).0 c) in rw w refl
      | inr c ↦ rw c refl
    ])

-- Of a page in a coarse table.
pub translate-page :
    (words table : ℕ → ℕ) (base adr a spd page : ℕ)
    → base % 1024 ≡ 0
    → table (adr / 2 ^ 20) ≡ base + 17
    → words (base + 4 * (adr / 4096 % 256)) ≡ spd
    → spd % 4 ≡ 2
    → spd / 4096 * 4096 ≡ page / 4096 * 4096
    → a / 4096 ≡ adr / 4096
    → translate words table a ≡ page / 4096 * 4096 + a % 4096
unfolding translate
translate-page words table base adr a spd page al t w m h e =
    let x : a / 2 ^ 20 ≡ adr / 2 ^ 20 = omega (arith, e) in
    let b : (base + 17) / 1024 * 1024 ≡ base = omega (arith, al) in
    let c : (base + 17) % 4 ≡ 1 = omega (arith, al) in rw (x, t, b, c, e, w, m) (omega (arith, h))

-- Of an address whose word in a coarse table is 0.
pub translate-unmapped :
    (words table : ℕ → ℕ) (base a : ℕ)
    → base % 1024 ≡ 0
    → table (a / 2 ^ 20) ≡ base + 17
    → words (base + 4 * (a / 4096 % 256)) ≡ 0
    → translate words table a ≡ 0
unfolding translate
translate-unmapped words table base a al t w =
    let b : (base + 17) / 1024 * 1024 ≡ base = omega (arith, al) in
    let c : (base + 17) % 4 ≡ 1 = omega (arith, al) in rw (t, b, c, w) refl

pub translate-invalid :
    (words table : ℕ → ℕ) (a : ℕ) → table (a / 2 ^ 20) % 4 ≡ 0 → translate words table a ≡ 0
unfolding translate
translate-invalid words table a h = rw h refl

-- None of the tables of the translation table begins at `base`.
abbrev pub Apart : (table : ℕ → ℕ) → (base : ℕ) → Type 0
Apart table base = (j : ℕ) → table j % 4 ≡ 1 → table j / 1024 * 1024 ≢ base

-- The words outside the table at `base` are the same.
abbrev pub SameOutside : (base : ℕ) → (words words' : ℕ → ℕ) → Type 0
SameOutside base words words' = (q : ℕ) → (base ≤ q → q < base + 1024 → ⊥) → words q ≡ words' q

pub translate-Apart :
    (words words' table : ℕ → ℕ) (base a : ℕ)
    → base % 1024 ≡ 0
    → Apart table base
    → SameOutside base words words'
    → translate words table a ≡ translate words' table a
translate-Apart words words' table base a al apart same =
    translate-same words words' table table a refl (λ c.
      same (table (a / 2 ^ 20) / 1024 * 1024 + 4 * (a / 4096 % 256))
        (λ l u. apart (a / 2 ^ 20) c (omega (arith, al, l, u))))
