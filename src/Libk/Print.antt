-- ===== src/Libk/Print.antt =====
-- The digits that the print functions write.
use osext.Common.{
  ℕ, zero, suc, ◌+◌, ◌-◌, ◌*◌, ◌/◌, ◌%◌, ◌^◌, ◌≤◌, ◌<◌, true, false, ltb, leb, ◌==◌, ◌||◌,
  if◌then◌else◌, ◌≡◌, refl, arith, ap, ◌∙◌, inl, inr, Bool-cases, sym, ==_iff, List, [], ◌∷◌, ◌++◌,
  length,
}
use native.Mathlib.Nat.{
  mod-lt, mod-add-div, div-lt_iff_lt-mul, mul-le-mul_left, pow-suc, pow-zero, mod-eq_of_lt,
  add-mul-mod_self_right,
}
use osext.Common.Words.{mul32, sub32}
use osext.Libk.Numbers.{pow_loop, k_pow, digit_char, digits, copy_out, rev, sprint_uint32_base_safe}

-- The digit that a character stands for, and the number that characters stand for, with the last
-- digit first and with the first digit first.
unfoldable pub digit_of : ℕ → ℕ
digit_of c = if ltb c 58 then c - 48 else c - 87

unfoldable pub number : ℕ → List ℕ → ℕ
number base [] = 0
number base (c ∷ cs) = digit_of c + base * number base cs

unfoldable pub read : (base sum : ℕ) → List ℕ → ℕ
read base sum [] = sum
read base sum (c ∷ cs) = read base (sum * base + digit_of c) cs

digit_of-digit_char : (d : ℕ) → d < 16 → digit_of (digit_char d) ≡ d
unfolding digit_of digit_char
digit_of-digit_char d h = ground arith

last_digit :
    (a base : ℕ)
    → (a / base == 0) ≡ true
    → a % base + base * (a / base) ≡ a
    → a % base + base * 0 ≡ a
last_digit a base z e = ap (λ x. a % base + base * x) (sym ((==_iff (a / base) 0).0 z)) ∙ e

half_lt : (fuel a base : ℕ) → 2 ≤ base → a < 2 ^ suc fuel → a / base < 2 ^ fuel
half_lt fuel a base l h =
    let p : 2 ^ fuel * 2 ≤ 2 ^ fuel * base = mul-le-mul_left (2 ^ fuel) l in
    (div-lt_iff_lt-mul {k = base} {x = a} {y = 2 ^ fuel} (omega arith)).1
      (omega (arith, h, p, pow-suc 2 fuel))

number-digits :
    (fuel a base : ℕ) → 2 ≤ base → base ≤ 16 → a < 2 ^ fuel → number base (digits fuel a base) ≡ a
unfolding number digits
number-digits zero a base l u h = ground arith
number-digits (suc fuel) a base l u h =
    let m : a % base < base = mod-lt a (omega arith) in
    let big : ltb 15 (a % base) ≡ false = ground arith in
    let d = digit_of-digit_char (a % base) (omega arith) in
    let e = mod-add-div a base in
    elim (Bool-cases (a / base == 0)) [
      | inl z ↦ rw (big, z) (rw (d) (last_digit a base z e))
      | inr z ↦
          rw (big, z) (rw (d, number-digits fuel (a / base) base l u (half_lt fuel a base l h)) e)
    ]

pub length-digits : (fuel a base : ℕ) → length (digits fuel a base) ≤ fuel
unfolding digits
length-digits zero a base = ground arith
length-digits (suc fuel) a base = ground (arith, length-digits fuel (a / base) base)

read-snoc :
    (base sum c : ℕ) (cs : List ℕ)
    → read base sum (cs ++ (c ∷ [])) ≡ read base sum cs * base + digit_of c
unfolding read
read-snoc base sum c [] = refl
read-snoc base sum c (d ∷ cs) = read-snoc base (sum * base + digit_of d) c cs

read-rev : (base : ℕ) (cs : List ℕ) → read base 0 (rev cs) ≡ number base cs
unfolding read rev number
read-rev base [] = refl
read-rev base (c ∷ cs) = read-snoc base 0 c (rev cs) ∙ grind (arith, read-rev base cs)

pub length-copy_out :
    (n h : ℕ) (cs : List ℕ) → 0 < n → n < 2 ^ 32 → h ≤ n - 1 → h + length (copy_out n h cs) ≤ n - 1
unfolding copy_out
length-copy_out n h [] p q r = ground arith
length-copy_out n h (c ∷ cs) p q r =
    let w : sub32 n 1 ≡ n - 1 = omega arith in
    elim (Bool-cases (leb (n - 1) h || leb 34 h)) [
      | inl e ↦ rw (w, e) (omega (arith, r))
      | inr e ↦ rw (w, e) (omega (arith, length-copy_out n (h + 1) cs p q (ground arith)))
    ]

pub copy_out-whole :
    (n h : ℕ) (cs : List ℕ)
    → 0 < n
    → n < 2 ^ 32
    → h + length cs ≤ n - 1
    → h + length cs ≤ 34
    → copy_out n h cs ≡ cs
unfolding copy_out
copy_out-whole n h [] p q r k = refl
copy_out-whole n h (c ∷ cs) p q r k =
    let w : sub32 n 1 ≡ n - 1 = omega arith in
    let e : (leb (n - 1) h || leb 34 h) ≡ false = ground arith in
    rw (w, e)
      (ap (λ x. c ∷ x) (copy_out-whole n (h + 1) cs p q (omega (arith, r)) (omega (arith, k))))

length-snoc : (c : ℕ) (cs : List ℕ) → length (cs ++ (c ∷ [])) ≡ suc (length cs)
length-snoc c [] = refl
length-snoc c (d ∷ cs) = ap suc (length-snoc c cs)

pub length-rev : (cs : List ℕ) → length (rev cs) ≡ length cs
unfolding rev
length-rev [] = refl
length-rev (c ∷ cs) = length-snoc c (rev cs) ∙ ap suc (length-rev cs)

mul-mod_mod : (x y m : ℕ) → 0 < m → x % m * y % m ≡ x * y % m
mul-mod_mod x y m p =
    sym (add-mul-mod_self_right (x % m * y) (x / m * y) m)
    ∙ ap (λ z. z % m) (grind (arith, ap (λ z. z * y) (mod-add-div x m)))

pow_loop_lem : (a n sum : ℕ) → sum < 2 ^ 32 → pow_loop a n sum ≡ sum * a ^ n % 2 ^ 32
unfolding pow_loop
pow_loop_lem a zero sum h = sym (mod-eq_of_lt h) ∙ ap (λ x. x % 2 ^ 32) (grind (arith, pow-zero a))
pow_loop_lem a (suc n) sum h =
    pow_loop_lem a n (mul32 sum a) (omega arith)
    ∙ mul-mod_mod (sum * a) (a ^ n) (2 ^ 32) (omega arith)
    ∙ ap (λ x. x % 2 ^ 32) (grind (arith, pow-suc a n))

-- k_pow of a 32-bit number is the power, up to the wrap-around of 32 bits.
pub k_pow_lem : (a b : ℕ) → a < 2 ^ 32 → k_pow a b ≡ a ^ b % 2 ^ 32
unfolding k_pow
k_pow_lem a zero h = ap (λ x. x % 2 ^ 32) (sym (pow-zero a))
k_pow_lem a (suc zero) h =
    sym (mod-eq_of_lt h) ∙ ap (λ x. x % 2 ^ 32) (grind (arith, pow-suc a 0, pow-zero a))
k_pow_lem a (suc (suc b)) h =
    let z : (suc (suc b) == 0) ≡ false = ground arith in
    let o : (suc (suc b) == 1) ≡ false = ground arith in
    let m : suc (suc b) - 1 ≡ suc b = omega arith in
    rw (z, o, m)
      (pow_loop_lem a (suc b) a h ∙ ap (λ x. x % 2 ^ 32) (grind (arith, pow-suc a (suc b))))

-- Of a 32-bit number, in a base from 2 to 16 and with room for 33 characters or more, what is
-- written reads as the number, and leaves room for a character behind it.
pub read-sprint_uint32 :
    (n a base : ℕ)
    → 33 ≤ n
    → n < 2 ^ 32
    → a < 2 ^ 32
    → 2 ≤ base
    → base ≤ 16
    → (read base 0 (sprint_uint32_base_safe n a base) ≡ a)
      × (length (sprint_uint32_base_safe n a base) < n)
unfolding sprint_uint32_base_safe
read-sprint_uint32 n a base l u w b c =
    let ds = digits 32 a base in
    let e =
      copy_out-whole n 0 (rev ds) (omega arith) u
        (omega (arith, length-rev ds, length-digits 32 a base))
        (omega (arith, length-rev ds, length-digits 32 a base)) in
    rw e (
      read-rev base ds ∙ number-digits 32 a base b c w,
      omega (arith, length-rev ds, length-digits 32 a base),
    )

two_pow_pos : (k : ℕ) → 0 < 2 ^ k
two_pow_pos zero = omega arith
two_pow_pos (suc k) = omega (arith, two_pow_pos k, pow-suc 2 k)

half_ge : (k a : ℕ) → 2 ^ suc k ≤ a → 2 ^ k ≤ a / 2
half_ge k a l = omega (arith, l, pow-suc 2 k)

digits_long : (fuel k a : ℕ) → k < fuel → 2 ^ k ≤ a → k < length (digits fuel a 2)
unfolding digits
digits_long zero k a h l = absurd (omega (arith, h))
digits_long (suc fuel) zero a h l = ground arith
digits_long (suc fuel) (suc k) a h l =
    let big : ltb 15 (a % 2) ≡ false = ground arith in
    let le = half_ge k a l in
    let nz : (a / 2 == 0) ≡ false = ground (arith, le, two_pow_pos k) in
    rw (big, nz) (omega (arith, digits_long fuel k (a / 2) (omega (arith, h)) le))

-- In base 2, a 64-bit number from 2^36 on has more digits than the 36 characters that the buffer of
-- sprint_uint64_base_safe has.
pub sprint_uint64_overflows : (a : ℕ) → 2 ^ 36 ≤ a → a < 2 ^ 64 → 36 < length (digits 64 a 2)
sprint_uint64_overflows a l u = digits_long 64 36 a (omega arith) l
