-- ===== src/Libk/Compare.antt =====
-- The length and the equality of strings.
use osext.Common.{
  ℕ, zero, suc, ◌+◌, ◌≤◌, ◌<◌, true, false, ◌==◌, ◌||◌, ◌≡◌, refl, ◌≢◌, arith, inl, inr, Bool-cases,
  ==_iff, ◌↔◌,
}
use osext.Libk.Strings.{strlen_from, k_strlen, strcmp_from, k_strcmp, streq_from, k_streq}

strlen_from_lem :
    (string : ℕ → ℕ) (n len : ℕ)
    → (len ≤ strlen_from string n len)
      × (strlen_from string n len ≤ len + n)
      × ((i : ℕ) → len ≤ i → i < strlen_from string n len → string i ≢ 0)
      × (strlen_from string n len < len + n → string (strlen_from string n len) ≡ 0)
unfolding strlen_from
strlen_from_lem string zero len =
    (omega arith, omega arith, (λ i h p. omega (arith, h, p)), (λ h. omega (arith, h)))
strlen_from_lem string (suc n) len =
    let r = strlen_from_lem string n (len + 1) in
    elim (Bool-cases (string len == 0)) [
      | inl e ↦ rw e (omega arith, omega arith, (λ i h p. omega (arith, h, p)), (λ h. ground arith))
      | inr e ↦ rw e (
        omega (arith, r.0),
        omega (arith, r.1),
        (λ i h p. elim (Bool-cases (i == len)) [
          | inl f ↦ ground arith
          | inr f ↦ r.2 i (ground arith) p
        ]),
        (λ h. r.3 (omega (arith, h))),
      )
    ]

-- k_strlen is at most the maximum, no character before it is 0, and if it is less than the maximum
-- the character there is 0.
pub k_strlen_lem :
    (string : ℕ → ℕ) (max : ℕ)
    → (k_strlen string max ≤ max)
      × ((i : ℕ) → i < k_strlen string max → string i ≢ 0)
      × (k_strlen string max < max → string (k_strlen string max) ≡ 0)
unfolding k_strlen
k_strlen_lem string max =
    let r = strlen_from_lem string max 0 in
    (omega (arith, r.1), (λ i h. r.2 i (omega arith) h), (λ h. r.3 (omega (arith, h))))

streq_from_lem :
    (s1 s2 : ℕ → ℕ) (n i : ℕ)
    → streq_from s1 s2 n i ≡ true
    → (j : ℕ) → i ≤ j
    → j < strlen_from s1 n i
    → j < strlen_from s2 n i
    → s1 j ≡ s2 j
unfolding streq_from strlen_from
streq_from_lem s1 s2 zero i e j h p q = absurd (omega (arith, h, p))
streq_from_lem s1 s2 (suc n) i e j h p q = elim (Bool-cases (i == j)) [
  | inl f ↦ ground arith
  | inr f ↦
      streq_from_lem s1 s2 n (i + 1) (ground arith) j (ground arith) (ground arith) (ground arith)
]

first_below : (s : ℕ → ℕ) (max i : ℕ) → i < k_strlen s max → i < strlen_from s max 0
unfolding k_strlen
first_below s max i h = h

below_first :
    (s1 s2 : ℕ → ℕ) (max : ℕ)
    → ((i : ℕ) → i < k_strlen s1 max → s1 i ≡ s2 i)
    → (j : ℕ) → 0 ≤ j
    → j < strlen_from s1 max 0
    → s1 j ≡ s2 j
unfolding k_strlen
below_first s1 s2 max h j p q = h j q

streq_from_agree :
    (s1 s2 : ℕ → ℕ) (n i : ℕ)
    → ((j : ℕ) → i ≤ j → j < strlen_from s1 n i → s1 j ≡ s2 j)
    → streq_from s1 s2 n i ≡ true
unfolding streq_from strlen_from
streq_from_agree s1 s2 zero i h = refl
streq_from_agree s1 s2 (suc n) i h = elim (Bool-cases (s1 i == 0 || s2 i == 0)) [
  | inl e ↦ rw e refl
  | inr e ↦
      let z : (s1 i == 0) ≡ false = ground arith in
      let len = strlen_from_lem s1 n (i + 1) in
      let here : s1 i ≡ s2 i = h i (omega arith) (rw z (omega (arith, len.0))) in
      let same : (s1 i == s2 i) ≡ true = (==_iff (s1 i) (s2 i)).1 here in
      rw (e, same) (streq_from_agree s1 s2 n (i + 1) (λ j p q. h j (omega (arith, p)) (rw z q)))
]

-- When k_streq returns true, the two strings have the same length up to the maximum and the same
-- characters before it.
k_streq-agree :
    (s1 s2 : ℕ → ℕ) (max : ℕ)
    → k_streq s1 s2 max ≡ true
    → (k_strlen s1 max ≡ k_strlen s2 max) × ((i : ℕ) → i < k_strlen s1 max → s1 i ≡ s2 i)
unfolding k_streq
k_streq-agree s1 s2 max h = elim (Bool-cases (k_strlen s1 max == k_strlen s2 max)) [
  | inl e ↦
      let same = (==_iff (k_strlen s1 max) (k_strlen s2 max)).0 e in
      (
        same,
        λ i p.
            streq_from_lem s1 s2 max 0 (rw e at h) i (omega arith) (first_below s1 max i p)
              (first_below s2 max i (omega (arith, p, same))),
      )
  | inr e ↦ absurd (let x : false ≡ true = rw e at h in let y : ⊥ = cc in y)
]

-- Strings of the same characters, and of the same length up to the maximum, are equal for k_streq.
agree-k_streq :
    (s1 s2 : ℕ → ℕ) (max : ℕ)
    → k_strlen s1 max ≡ k_strlen s2 max
    → ((i : ℕ) → i < k_strlen s1 max → s1 i ≡ s2 i)
    → k_streq s1 s2 max ≡ true
unfolding k_streq
agree-k_streq s1 s2 max same agree =
    let e : (k_strlen s1 max == k_strlen s2 max) ≡ true =
      (==_iff (k_strlen s1 max) (k_strlen s2 max)).1 same in
    rw e (streq_from_agree s1 s2 max 0 (below_first s1 s2 max agree))

-- k_streq returns true exactly when the two strings have the same length up to the maximum and the
-- same characters before their ends.
pub k_streq_iff :
    (s1 s2 : ℕ → ℕ) (max : ℕ)
    → ((k_streq s1 s2 max ≡ true)
        ↔ ((k_strlen s1 max ≡ k_strlen s2 max) × ((i : ℕ) → i < k_strlen s1 max → s1 i ≡ s2 i)))
k_streq_iff s1 s2 max = (k_streq-agree s1 s2 max, λ p. agree-k_streq s1 s2 max p.0 p.1)

-- k_strcmp returns 0 for two strings of two characters, neither 0, when one has the characters of
-- the other in reverse order.
pub k_strcmp-swapped :
    (s1 s2 : ℕ → ℕ)
    → (s1 0 ≡ s2 1) × (s1 1 ≡ s2 0)
    → (0 < s1 0) × (s1 0 < 256)
    → (0 < s1 1) × (s1 1 < 256)
    → k_strcmp s1 s2 2 ≡ 0
unfolding k_strcmp strcmp_from
k_strcmp-swapped s1 s2 e p q = ground arith
