-- ===== src/Libk/Text.antt =====
-- What `sprintf_safe` writes.
use osext.Common.{
  ℕ, zero, suc, ◌+◌, ◌-◌, ◌^◌, ◌<◌, true, false, leb, ◌==◌, List, [], ◌∷◌, ◌++◌, length, ◌≡◌, refl,
  ◌∙◌, ap, sym, arith,
}
use osext.Common.Words.{add32, sub32}
use osext.Libk.Memory.{store}
use osext.Libk.Numbers.{digits, rev, sprint_uint32_base_safe}
use osext.Libk.Print.{length-digits, length-rev, copy_out-whole}
use osext.Libk.Printf.{
  Argument, uint32, Printing, char_at, skip, write_chars, printed, print_uint32, print_char,
  print_percent, print_conversion, sprintf_round, returned, running, after_round, sprintf_loop,
  sprintf_safe,
}

-- A piece of a format with its argument.
pub data Piece : Type 0 where
  plain : (c : ℕ) → Piece
  percent : Piece
  decimal : (a : ℕ) → Piece
  hexadecimal : (a : ℕ) → Piece

unfoldable pub format : List Piece → List ℕ
format [] = []
format (plain c ∷ ps) = c ∷ format ps
format (percent ∷ ps) = 37 ∷ 37 ∷ format ps
format (decimal a ∷ ps) = 37 ∷ 100 ∷ format ps
format (hexadecimal a ∷ ps) = 37 ∷ 120 ∷ format ps

unfoldable pub arguments : List Piece → List Argument
arguments [] = []
arguments (plain c ∷ ps) = arguments ps
arguments (percent ∷ ps) = arguments ps
arguments (decimal a ∷ ps) = uint32 a ∷ arguments ps
arguments (hexadecimal a ∷ ps) = uint32 a ∷ arguments ps

unfoldable pub text : List Piece → List ℕ
text [] = []
text (plain c ∷ ps) = c ∷ text ps
text (percent ∷ ps) = 37 ∷ text ps
text (decimal a ∷ ps) = rev (digits 32 a 10) ++ text ps
text (hexadecimal a ∷ ps) = rev (digits 32 a 16) ++ text ps

-- A plain character is neither the null byte nor a per cent sign.
unfoldable pub Plain : List Piece → Type 0
Plain [] = Unit
Plain (plain c ∷ ps) = ((c == 0) ≡ false) × ((c == 37) ≡ false) × Plain ps
Plain (percent ∷ ps) = Plain ps
Plain (decimal a ∷ ps) = Plain ps
Plain (hexadecimal a ∷ ps) = Plain ps

pub length-append : (xs ys : List ℕ) → length (xs ++ ys) ≡ length xs + length ys
length-append [] ys = omega arith
length-append (x ∷ xs) ys = omega (arith, length-append xs ys)

pub write_chars-append :
    (p : ℕ) (xs ys : List ℕ) (memory : ℕ → ℕ)
    → write_chars p (xs ++ ys) memory ≡ write_chars (p + length xs) ys (write_chars p xs memory)
unfolding write_chars
write_chars-append p [] ys memory = ap (λ x. write_chars x ys memory) (omega arith)
write_chars-append p (x ∷ xs) ys memory =
    write_chars-append (p + 1) xs ys (store p x memory)
    ∙ ap (λ n. write_chars n ys (write_chars (p + 1) xs (store p x memory))) (omega arith)

sprint_whole :
    (n a base : ℕ)
    → length (rev (digits 32 a base)) < n
    → n < 2 ^ 32
    → sprint_uint32_base_safe n a base ≡ rev (digits 32 a base)
unfolding sprint_uint32_base_safe
sprint_whole n a base p q =
    copy_out-whole n 0 (rev (digits 32 a base)) (omega arith) q (omega (arith, p))
      (omega (arith, length-rev (digits 32 a base), length-digits 32 a base))

-- The number is written, and then the rest of the pieces.
text_after :
    (base a : ℕ) (ps : List Piece) (fuel result len index : ℕ) (memory : ℕ → ℕ)
    → index + length (rev (digits 32 a base) ++ text ps) + 1 < len
    → len < 2 ^ 32
    → ((index' : ℕ) (memory' : ℕ → ℕ)
        → index' + length (text ps) + 1 < len
        → sprintf_loop fuel result len
            (record { c = format ps; index = index'; va = arguments ps; memory = memory' })
          ≡ returned (write_chars (result + index') (text ps) memory'))
    → sprintf_loop fuel result len (
        printed result 2 (sprint_uint32_base_safe (sub32 len index) a base) (arguments ps) (record {
          c = 37 ∷ 100 ∷ format ps;
          index = index;
          va = uint32 a ∷ arguments ps;
          memory = memory;
        }))
      ≡ returned (write_chars (result + index) (rev (digits 32 a base) ++ text ps) memory)
unfolding printed skip
text_after base a ps fuel result len index memory h w rest =
    let ds = rev (digits 32 a base) in
    let l = length-append ds (text ps) in
    let room : sub32 len index ≡ len - index = omega (arith, h) in
    let whole : sprint_uint32_base_safe (len - index) a base ≡ ds =
      sprint_whole (len - index) a base (omega (arith, h, l)) (omega arith) in
    let next : add32 index (length ds) ≡ index + length ds = omega (arith, h, l) in
    rw (room, whole, next)
      (rest (index + length ds) (write_chars (result + index) ds memory) (omega (arith, h, l))
        ∙ ap (λ n. returned (write_chars n (text ps) (write_chars (result + index) ds memory)))
            (omega arith)
        ∙ ap returned (sym (write_chars-append (result + index) ds (text ps) memory)))

text_loop :
    (ps : List Piece) (fuel result len index : ℕ) (memory : ℕ → ℕ)
    → Plain ps
    → length ps < fuel
    → index + length (text ps) + 1 < len
    → len < 2 ^ 32
    → sprintf_loop fuel result len
        (record { c = format ps; index = index; va = arguments ps; memory = memory })
      ≡ returned (write_chars (result + index) (text ps) memory)
unfolding Plain format arguments text sprintf_loop after_round sprintf_round print_conversion
    print_percent print_uint32 print_char printed char_at skip write_chars
text_loop ps zero result len index memory f g h w = absurd (omega (arith, g))
text_loop [] (suc fuel) result len index memory f g h w =
    let go : leb (sub32 len 1) index ≡ false = ground arith in rw go refl
text_loop (plain c ∷ ps) (suc fuel) result len index memory f g h w =
    let go : leb (sub32 len 1) index ≡ false = ground arith in
    let next : add32 index 1 ≡ index + 1 = omega (arith, h) in
    rw (go, f.0, f.1, next)
      (text_loop ps fuel result len (index + 1) (store (result + index) c memory) f.2
          (omega (arith, g)) (omega (arith, h)) w
        ∙ ap (λ n. returned (write_chars n (text ps) (store (result + index) c memory)))
            (omega arith))
text_loop (percent ∷ ps) (suc fuel) result len index memory f g h w =
    let go : leb (sub32 len 1) index ≡ false = ground arith in
    let next : add32 index 1 ≡ index + 1 = omega (arith, h) in
    let room : leb (sub32 len 1) (index + 1) ≡ false = ground (arith, h) in
    rw (go, next, room)
      (text_loop ps fuel result len (index + 1) (store (result + index) 37 memory) f
          (omega (arith, g)) (omega (arith, h)) w
        ∙ ap (λ n. returned (write_chars n (text ps) (store (result + index) 37 memory)))
            (omega arith))
text_loop (decimal a ∷ ps) (suc fuel) result len index memory f g h w =
    let go : leb (sub32 len 1) index ≡ false = ground arith in
    rw go (
      text_after 10 a ps fuel result len index memory h w (λ index' memory' h'.
        text_loop ps fuel result len index' memory' f (omega (arith, g)) h' w))
text_loop (hexadecimal a ∷ ps) (suc fuel) result len index memory f g h w =
    let go : leb (sub32 len 1) index ≡ false = ground arith in
    rw go (
      text_after 16 a ps fuel result len index memory h w (λ index' memory' h'.
        text_loop ps fuel result len index' memory' f (omega (arith, g)) h' w))

-- Of a format of plain characters, "%%", "%d" and "%x", sprintf_safe writes the characters and the
-- digits of the arguments one behind the other, and returns, if the buffer has room for them and two
-- more characters. It writes no null byte behind them.
pub sprintf_safe_lem :
    (ps : List Piece) (fuel result len : ℕ) (memory : ℕ → ℕ)
    → Plain ps
    → length ps < fuel
    → length (text ps) + 1 < len
    → len < 2 ^ 32
    → sprintf_safe fuel result (format ps) len (arguments ps) memory
      ≡ returned (write_chars result (text ps) memory)
unfolding sprintf_safe
sprintf_safe_lem ps fuel result len memory f g h w =
    text_loop ps fuel result len 0 memory f g (omega (arith, h)) w
    ∙ ap (λ n. returned (write_chars n (text ps) memory)) (omega arith)

-- At a "%%" for which there is room for one more character only, the loop of sprintf_safe never
-- ends: it is running after any number of rounds.
pub sprintf_loop-endless :
    (fuel result len : ℕ) (rest : List ℕ) (s : Printing)
    → s.c ≡ 37 ∷ 37 ∷ rest
    → s.index + 2 ≡ len
    → len < 2 ^ 32
    → sprintf_loop fuel result len s ≡ running
unfolding sprintf_loop after_round sprintf_round print_conversion print_percent char_at
sprintf_loop-endless zero result len rest s c i w = refl
sprintf_loop-endless (suc fuel) result len rest s c i w =
    let go : leb (sub32 len 1) s.index ≡ false = ground (arith, i) in
    let full : leb (sub32 len 1) (add32 s.index 1) ≡ true = ground (arith, i) in
    rw (c, go, full)
      (sprintf_loop-endless fuel result len rest (record s { c = 37 ∷ 37 ∷ rest }) refl i w)
