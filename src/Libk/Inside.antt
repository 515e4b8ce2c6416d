-- ===== src/Libk/Inside.antt =====
-- Where `sprintf_safe` writes, and that it ends.
use osext.Common.{
  ℕ, zero, suc, ◌+◌, ◌-◌, ◌*◌, ◌%◌, ◌^◌, ◌≤◌, ◌<◌, Bool, true, false, leb, ◌==◌, ◌&&◌, not,
  if◌then◌else◌, List, [], ◌∷◌, ◌++◌, length, ◌≡◌, refl, ◌∙◌, arith, ◌⊎◌,
}
use osext.Common.Words.{sub32}
use osext.Libk.Memory.{store}
use osext.Libk.Numbers.{k_pow, digits, rev, sprint_uint32_base_safe, sprint_uint64_base_safe}
use osext.Libk.Print.{length-copy_out}
use osext.Libk.Text.{length-append}
use osext.Libk.Printf.{
  Argument, string, uint32, uint64, double, Printing, Round, ended, again, undefined, char_at, skip,
  write_chars, printed, print_uint32, print_uint64, print_double, print_char, print_string,
  print_conversion, sprintf_round, sprint_double_safe, Outcome, returned, undefined_argument,
  running, after_round, sprintf_loop, sprintf_safe,
}

unfoldable pub NoStrings : List Argument → Type 0
NoStrings [] = Unit
NoStrings (string p ∷ va) = ⊥
NoStrings (uint32 a ∷ va) = NoStrings va
NoStrings (uint64 a ∷ va) = NoStrings va
NoStrings (double whole scaled ∷ va) = NoStrings va

-- The format has no "%%".
unfoldable pub NoPairs : List ℕ → Type 0
NoPairs [] = Unit
NoPairs (x ∷ xs) = (((x == 37) && (char_at xs 0 == 37)) ≡ false) × NoPairs xs

unfoldable pub Same : (result len : ℕ) → (before after : ℕ → ℕ) → Type 0
Same result len before after =
    (q : ℕ) → (q < result) ⊎ (result + (len - 1) ≤ q) → after q ≡ before q

unfoldable pub Inside : (result len : ℕ) → (memory : ℕ → ℕ) → Printing → Type 0
Inside result len memory s =
    (s.index ≤ len - 1) × Same result len memory s.memory × NoStrings s.va × NoPairs s.c

-- A round that goes on has come forward in the format.
unfoldable pub Forward : (result len : ℕ) → (memory : ℕ → ℕ) → Printing → Round → Type 0
Forward result len memory s (ended s') = Same result len memory s'.memory
Forward result len memory s (again s') = Inside result len memory s' × (length s'.c < length s.c)
Forward result len memory s undefined = Unit

by_test :
    {A : Type 0} (P : A → Type 0) (b : Bool) (x y : A)
    → (b ≡ true → P x)
    → (b ≡ false → P y)
    → P (if b then x else y)
by_test P true x y p q = p refl
by_test P false x y p q = q refl

write_chars-outside :
    (p : ℕ) (xs : List ℕ) (memory : ℕ → ℕ) (q : ℕ)
    → (q < p) ⊎ (p + length xs ≤ q)
    → write_chars p xs memory q ≡ memory q
unfolding write_chars store
write_chars-outside p [] memory q h = refl
write_chars-outside p (x ∷ xs) memory q h =
    write_chars-outside (p + 1) xs (store p x memory) q (ground (arith, h)) ∙ ground (arith, h)

NoPairs-skip : (k : ℕ) (c : List ℕ) → NoPairs c → NoPairs (skip k c)
unfolding NoPairs skip
NoPairs-skip zero c h = h
NoPairs-skip (suc k) [] h = h
NoPairs-skip (suc k) (x ∷ xs) h = NoPairs-skip k xs h.1

length-skip : (k : ℕ) (c : List ℕ) → length (skip k c) ≤ length c
unfolding skip
length-skip zero c = omega arith
length-skip (suc k) [] = omega arith
length-skip (suc k) (x ∷ xs) = omega (arith, length-skip k xs)

skip_shorter :
    (k : ℕ) (c : List ℕ) → (char_at c 0 == 0) ≡ false → length (skip (suc k) c) < length c
unfolding skip char_at
skip_shorter k [] h = absurd (ground (arith, h))
skip_shorter k (x ∷ xs) h = omega (arith, length-skip k xs)

-- Characters that fit before the last of the buffer keep a round inside it.
printed-Forward :
    (result len k : ℕ) (memory : ℕ → ℕ) (chars : List ℕ) (va : List Argument) (s : Printing)
    → len < 2 ^ 32
    → Inside result len memory s
    → NoStrings va
    → (char_at s.c 0 == 0) ≡ false
    → s.index + length chars ≤ len - 1
    → Forward result len memory s (again (printed result (suc k) chars va s))
unfolding Forward Inside Same printed
printed-Forward result len k memory chars va s w i v ne fits = (
  (
    omega (arith, fits),
    λ q h.
        write_chars-outside (result + s.index) chars s.memory q (ground (arith, h, fits)) ∙ i.1 q h,
    v,
    NoPairs-skip (suc k) s.c i.3,
  ),
  skip_shorter k s.c ne,
)

length-sprint_uint32 :
    (n a base : ℕ) → 0 < n → n < 2 ^ 32 → length (sprint_uint32_base_safe n a base) ≤ n - 1
unfolding sprint_uint32_base_safe
length-sprint_uint32 n a base p q =
    omega (arith, length-copy_out n 0 (rev (digits 32 a base)) p q (omega arith))

length-sprint_uint64 :
    (n a base : ℕ) → 0 < n → n < 2 ^ 32 → length (sprint_uint64_base_safe n a base) ≤ n - 1
unfolding sprint_uint64_base_safe
length-sprint_uint64 n a base p q =
    omega (arith, length-copy_out n 0 (rev (digits 64 a base)) p q (omega arith))

length-sprint_double :
    (n whole scaled roundto : ℕ)
    → 0 < n
    → n < 2 ^ 32
    → length (sprint_double_safe n whole scaled roundto) ≤ n - 1
unfolding sprint_double_safe
length-sprint_double n whole scaled roundto p q =
    by_test (λ xs. length xs ≤ n - 1) (leb (sub32 n 1) (length before)) before
      (before ++ (46 ∷ after)) (λ e. l)
      (λ e.
        let room : length before + 1 < n = ground (arith, e) in
        let l' =
          length-sprint_uint64 (sub32 n (length before + 1)) part 10 (omega arith) (omega arith) in
        omega (arith, l', length-append before (46 ∷ after)))
  where
    before : List ℕ
    before = sprint_uint64_base_safe n whole 10

    part : ℕ
    part = (scaled + 2 ^ 64 - whole * k_pow 10 roundto % 2 ^ 64) % 2 ^ 64

    after : List ℕ
    after = sprint_uint64_base_safe (sub32 n (length before + 1)) part 10

    l : length before ≤ n - 1
    l = length-sprint_uint64 n whole 10 p q

-- What is known of a round at a character other than the null byte, before the last of the buffer.
unfoldable pub Going : (result len : ℕ) → (memory : ℕ → ℕ) → Printing → Type 0
Going result len memory s =
    (len < 2 ^ 32)
    × (s.index + 1 < len)
    × Inside result len memory s
    × ((char_at s.c 0 == 0) ≡ false)

print_uint32-Forward :
    (result len base : ℕ) (memory : ℕ → ℕ) (s : Printing) (va : List Argument)
    → NoStrings va
    → Going result len memory s
    → Forward result len memory s (print_uint32 result len base s va)
unfolding print_uint32 NoStrings Going Forward
print_uint32-Forward result len base memory s (uint32 a ∷ va) v g =
    printed-Forward result len 1 memory (sprint_uint32_base_safe (sub32 len s.index) a base) va s
      g.0 g.2 v g.3
      (omega (
        arith,
        g.1,
        length-sprint_uint32 (sub32 len s.index) a base (omega (arith, g.1)) (omega arith),
      ))
print_uint32-Forward result len base memory s va v g = tt

print_uint64-Forward :
    (result len base : ℕ) (memory : ℕ → ℕ) (s : Printing) (va : List Argument)
    → NoStrings va
    → Going result len memory s
    → Forward result len memory s (print_uint64 result len base s va)
unfolding print_uint64 NoStrings Going Forward
print_uint64-Forward result len base memory s (uint64 a ∷ va) v g =
    printed-Forward result len 3 memory (sprint_uint64_base_safe (sub32 len s.index) a base) va s
      g.0 g.2 v g.3
      (omega (
        arith,
        g.1,
        length-sprint_uint64 (sub32 len s.index) a base (omega (arith, g.1)) (omega arith),
      ))
print_uint64-Forward result len base memory s va v g = tt

print_double-Forward :
    (result len : ℕ) (memory : ℕ → ℕ) (s : Printing) (va : List Argument)
    → NoStrings va
    → Going result len memory s
    → Forward result len memory s (print_double result len s va)
unfolding print_double NoStrings Going Forward
print_double-Forward result len memory s (double whole scaled ∷ va) v g =
    printed-Forward result len 2 memory (sprint_double_safe (sub32 len s.index) whole scaled 2) va s
      g.0 g.2 v g.3
      (omega (
        arith,
        g.1,
        length-sprint_double (sub32 len s.index) whole scaled 2 (omega (arith, g.1)) (omega arith),
      ))
print_double-Forward result len memory s va v g = tt

print_string-Forward :
    (result len : ℕ) (memory : ℕ → ℕ) (s : Printing) (va : List Argument)
    → NoStrings va
    → Forward result len memory s (print_string result len s va)
unfolding print_string NoStrings Forward
print_string-Forward result len memory s (string p ∷ va) v = absurd v
print_string-Forward result len memory s va v = tt

print_char-Forward :
    (result len : ℕ) (memory : ℕ → ℕ) (s : Printing)
    → Going result len memory s
    → Forward result len memory s (again (print_char result s))
unfolding print_char Going Inside
print_char-Forward result len memory s g =
    printed-Forward result len 0 memory (char_at s.c 0 ∷ []) s.va s g.0 g.2 g.2.2 g.3
      (omega (arith, g.1))

no_pair : (c : List ℕ) → NoPairs c → (char_at c 0 == 37) ≡ true → (char_at c 1 == 37) ≡ false
unfolding NoPairs char_at
no_pair [] h e = absurd (ground (arith, e))
no_pair (x ∷ xs) h e = rw e at h.0

-- The tests of a conversion; there is no "%%".
print_conversion-Forward :
    (result len : ℕ) (memory : ℕ → ℕ) (s : Printing)
    → Going result len memory s
    → (char_at s.c 0 == 37) ≡ true
    → Forward result len memory s (print_conversion result len s)
unfolding print_conversion Going Inside
print_conversion-Forward result len memory s g e =
    let v = g.2.2 in
    let long = (char_at s.c 1 == 108) && (char_at s.c 2 == 108) in
    let single : (char_at s.c 1 == 37) ≡ false = no_pair s.c g.2.3 e in
    rw single (
      tests (char_at s.c 1 == 115) _ _ (λ _. print_string-Forward result len memory s s.va v)
        (λ _.
          tests (char_at s.c 1 == 100) _ _
            (λ _. print_uint32-Forward result len 10 memory s s.va v g)
            (λ _.
              tests (char_at s.c 1 == 120) _ _
                (λ _. print_uint32-Forward result len 16 memory s s.va v g)
                (λ _.
                  tests (long && (char_at s.c 3 == 120)) _ _
                    (λ _. print_uint64-Forward result len 16 memory s s.va v g)
                    (λ _.
                      tests (long && (char_at s.c 3 == 100)) _ _
                        (λ _. print_uint64-Forward result len 10 memory s s.va v g)
                        (λ _.
                          tests ((char_at s.c 1 == 76) && (char_at s.c 2 == 102)) _ _
                            (λ _. print_double-Forward result len memory s s.va v g)
                            (λ _. print_char-Forward result len memory s g)))))))
  where
    tests :
        (b : Bool) (x y : Round)
        → (b ≡ true → Forward result len memory s x)
        → (b ≡ false → Forward result len memory s y)
        → Forward result len memory s (if b then x else y)
    tests b x y = by_test (Forward result len memory s) b x y

sprintf_round-Forward :
    (result len : ℕ) (memory : ℕ → ℕ) (s : Printing)
    → 0 < len
    → len < 2 ^ 32
    → Inside result len memory s
    → Forward result len memory s (sprintf_round result len s)
unfolding sprintf_round Forward Inside Going
sprintf_round-Forward result len memory s p w i =
    tests (leb (sub32 len 1) s.index) _ _ (λ e. i.1)
      (λ room.
        tests (char_at s.c 0 == 0) _ _ (λ e. i.1)
          (λ ne.
            tests ((char_at s.c 0 == 37) && not (char_at s.c 1 == 0)) _ _
              (λ e.
                print_conversion-Forward result len memory s (going room ne) (ground (arith, e)))
              (λ e. print_char-Forward result len memory s (going room ne))))
  where
    tests :
        (b : Bool) (x y : Round)
        → (b ≡ true → Forward result len memory s x)
        → (b ≡ false → Forward result len memory s y)
        → Forward result len memory s (if b then x else y)
    tests b x y = by_test (Forward result len memory s) b x y

    going :
        leb (sub32 len 1) s.index ≡ false → (char_at s.c 0 == 0) ≡ false → Going result len memory s
    going room ne = (w, ground (arith, room), i, ne)

-- An outcome that is no endless loop, and leaves the memory outside the buffer as it was.
unfoldable pub Ended : (result len : ℕ) → (memory : ℕ → ℕ) → Outcome → Type 0
Ended result len memory (returned after) = Same result len memory after
Ended result len memory undefined_argument = Unit
Ended result len memory running = ⊥

after_round-Ended :
    (result len : ℕ) (memory : ℕ → ℕ) (s : Printing) (round : Round) (rest : Printing → Outcome)
    → Forward result len memory s round
    → ((s' : Printing)
        → Inside result len memory s'
        → length s'.c < length s.c
        → Ended result len memory (rest s'))
    → Ended result len memory (after_round round rest)
unfolding after_round Forward Ended
after_round-Ended result len memory s (ended s') rest f h = f
after_round-Ended result len memory s (again s') rest f h = h s' f.0 f.1
after_round-Ended result len memory s undefined rest f h = tt

sprintf_loop-Ended :
    (fuel result len : ℕ) (memory : ℕ → ℕ) (s : Printing)
    → 0 < len
    → len < 2 ^ 32
    → Inside result len memory s
    → length s.c < fuel
    → Ended result len memory (sprintf_loop fuel result len s)
unfolding sprintf_loop
sprintf_loop-Ended zero result len memory s p w i h = absurd (omega (arith, h))
sprintf_loop-Ended (suc fuel) result len memory s p w i h =
    after_round-Ended result len memory s (sprintf_round result len s)
      (λ s'. sprintf_loop fuel result len s') (sprintf_round-Forward result len memory s p w i)
      (λ s' i' l. sprintf_loop-Ended fuel result len memory s' p w i' (omega (arith, h, l)))

-- Of a format without "%%", arguments without strings and a buffer that is not empty, sprintf_safe
-- ends after no more rounds than the format has characters and one, and writes to no byte but the
-- first `len - 1` of the buffer; or it takes an argument that was not passed or is of another type.
pub sprintf_safe-Ended :
    (fuel result len : ℕ) (str : List ℕ) (va : List Argument) (memory : ℕ → ℕ)
    → 0 < len
    → len < 2 ^ 32
    → NoPairs str
    → NoStrings va
    → length str < fuel
    → Ended result len memory (sprintf_safe fuel result str len va memory)
unfolding sprintf_safe Inside Same
sprintf_safe-Ended fuel result len str va memory p w n v h =
    sprintf_loop-Ended fuel result len memory
      (record { c = str; index = 0; va = va; memory = memory }) p w
      (omega arith, (λ q o. refl), v, n) h
