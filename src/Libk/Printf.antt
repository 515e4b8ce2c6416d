-- ===== src/Libk/Printf.antt =====
-- `sprintf_safe`, `sprintf_safe_va` and `sprint_double_safe` of kernel/libk/string.c. A format is
-- the list of its characters before the null byte.
use osext.Common.{
  ℕ, zero, suc, ◌+◌, ◌-◌, ◌*◌, ◌%◌, ◌^◌, leb, ◌==◌, ◌&&◌, not, if◌then◌else◌, List, [], ◌∷◌, ◌++◌,
  length,
}
use osext.Common.Words.{add32, sub32}
use osext.Libk.Memory.{store, k_memcpy}
use osext.Libk.Strings.{k_strlen}
use osext.Libk.Numbers.{k_pow, sprint_uint32_base_safe, sprint_uint64_base_safe}

-- What is passed behind `length`. A string is given by its address, and a double by what its
-- conversion and that of its product with 100 to `uint64_t` are.
pub data Argument : Type 0 where
  string : ℕ → Argument
  uint32 : ℕ → Argument
  uint64 : ℕ → Argument
  double : (whole scaled : ℕ) → Argument

-- What is written to the string, for a conversion `scaled` of the product with `k_pow(10,roundto)`.
unfoldable pub sprint_double_safe : (length whole scaled roundto : ℕ) → List ℕ
sprint_double_safe len whole scaled roundto =
    let before = sprint_uint64_base_safe len whole 10 in
    let h = length before in
    let part = (scaled + 2 ^ 64 - whole * k_pow 10 roundto % 2 ^ 64) % 2 ^ 64 in
    let after = sprint_uint64_base_safe (sub32 len (h + 1)) part 10 in
    if leb (sub32 len 1) h then before else before ++ (46 ∷ after)

-- `c` is the rest of the format.
pub record Printing : Type 0 where
  pub c : List ℕ
  pub index : ℕ
  pub va : List Argument
  pub memory : ℕ → ℕ

-- A round of the loop ends the loop, or goes on, or takes an argument of another type than was
-- passed, for which C does not say what happens.
pub data Round : Type 0 where
  ended : Printing → Round
  again : Printing → Round
  undefined : Round

-- The character at an index, which is 0 from the end on, and what is left behind `n` characters.
unfoldable pub char_at : List ℕ → ℕ → ℕ
char_at [] i = 0
char_at (x ∷ xs) zero = x
char_at (x ∷ xs) (suc i) = char_at xs i

unfoldable pub skip : (n : ℕ) → List ℕ → List ℕ
skip zero xs = xs
skip (suc n) [] = []
skip (suc n) (x ∷ xs) = skip n xs

unfoldable pub write_chars : (p : ℕ) → List ℕ → (ℕ → ℕ) → ℕ → ℕ
write_chars p [] memory = memory
write_chars p (x ∷ xs) memory = write_chars (p + 1) xs (store p x memory)

-- `chars` are written for the next `k` characters of the format.
unfoldable pub printed : (result k : ℕ) → (chars : List ℕ) → List Argument → Printing → Printing
printed result k chars va s = record {
  c = skip k s.c;
  index = add32 s.index (length chars);
  va = va;
  memory = write_chars (result + s.index) chars s.memory;
}

unfoldable pub print_string : (result len : ℕ) → Printing → List Argument → Round
print_string result len s (string p ∷ va) =
    let n = k_strlen (λ i. s.memory (p + i)) 100 in
    let most = sub32 (add32 s.index len) 1 in
    let copy = if leb most n then most else n in
    again (record {
      c = skip 2 s.c;
      index = add32 s.index copy;
      va = va;
      memory = k_memcpy (result + s.index) p copy s.memory;
    })
print_string result len s va = undefined

unfoldable pub print_uint32 : (result len base : ℕ) → Printing → List Argument → Round
print_uint32 result len base s (uint32 a ∷ va) =
    again (printed result 2 (sprint_uint32_base_safe (sub32 len s.index) a base) va s)
print_uint32 result len base s va = undefined

unfoldable pub print_uint64 : (result len base : ℕ) → Printing → List Argument → Round
print_uint64 result len base s (uint64 a ∷ va) =
    again (printed result 4 (sprint_uint64_base_safe (sub32 len s.index) a base) va s)
print_uint64 result len base s va = undefined

unfoldable pub print_double : (result len : ℕ) → Printing → List Argument → Round
print_double result len s (double whole scaled ∷ va) =
    again (printed result 3 (sprint_double_safe (sub32 len s.index) whole scaled 2) va s)
print_double result len s va = undefined

-- A character of the format is written as it is.
unfoldable pub print_char : (result : ℕ) → Printing → Printing
print_char result s = printed result 1 (char_at s.c 0 ∷ []) s.va s

unfoldable pub print_percent : (result len : ℕ) → Printing → Round
print_percent result len s =
    if not (leb (sub32 len 1) (add32 s.index 1))
    then again (printed result 2 (37 ∷ []) s.va s)
    else again s

-- What follows a per cent sign; other characters than these are written like any others.
unfoldable pub print_conversion : (result len : ℕ) → Printing → Round
print_conversion result len s =
    let next = char_at s.c 1 in
    let long = (next == 108) && (char_at s.c 2 == 108) in
    if next == 37
    then print_percent result len s
    else if next == 115
    then print_string result len s s.va
    else if next == 100
    then print_uint32 result len 10 s s.va
    else if next == 120
    then print_uint32 result len 16 s s.va
    else if long && (char_at s.c 3 == 120)
    then print_uint64 result len 16 s s.va
    else if long && (char_at s.c 3 == 100)
    then print_uint64 result len 10 s s.va
    else if (next == 76) && (char_at s.c 2 == 102)
    then print_double result len s s.va
    else again (print_char result s)

unfoldable pub sprintf_round : (result len : ℕ) → Printing → Round
sprintf_round result len s =
    if leb (sub32 len 1) s.index
    then ended s
    else if char_at s.c 0 == 0
    then ended s
    else if (char_at s.c 0 == 37) && not (char_at s.c 1 == 0)
    then print_conversion result len s
    else again (print_char result s)

-- `running` is a loop that has not ended after as many rounds as there was fuel.
pub data Outcome : Type 0 where
  returned : (memory : ℕ → ℕ) → Outcome
  undefined_argument : Outcome
  running : Outcome

unfoldable pub after_round : Round → (Printing → Outcome) → Outcome
after_round (ended s) rest = returned s.memory
after_round (again s) rest = rest s
after_round undefined rest = undefined_argument

unfoldable pub sprintf_loop : (fuel result len : ℕ) → Printing → Outcome
sprintf_loop zero result len s = running
sprintf_loop (suc fuel) result len s =
    after_round (sprintf_round result len s) (λ s'. sprintf_loop fuel result len s')

unfoldable pub sprintf_safe :
    (fuel result : ℕ) → (str : List ℕ) → (len : ℕ) → List Argument → (ℕ → ℕ) → Outcome
sprintf_safe fuel result str len va memory =
    sprintf_loop fuel result len (record { c = str; index = 0; va = va; memory = memory })

-- The same loop, on arguments that the caller has.
unfoldable pub sprintf_safe_va :
    (fuel result : ℕ) → (str : List ℕ) → (len : ℕ) → List Argument → (ℕ → ℕ) → Outcome
sprintf_safe_va fuel result str len va memory =
    sprintf_loop fuel result len (record { c = str; index = 0; va = va; memory = memory })
