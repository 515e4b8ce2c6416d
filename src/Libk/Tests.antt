-- ===== src/Libk/Tests.antt =====
-- The functions of libk on concrete memories, strings and numbers.
use osext.Common.{
  ℕ, ◌%◌, ◌^◌, ◌<◌, true, ◌==◌, if◌then◌else◌, ◌≡◌, refl, arith, List, [], ◌∷◌, length,
}
use osext.Libk.Printf.{
  string, uint32, uint64, Round, ended, again, undefined, char_at, write_chars, print_string,
  returned, sprintf_safe,
}
use osext.Libk.Text.{
  Piece, plain, percent, decimal, hexadecimal, format, arguments, text, Plain, sprintf_safe_lem,
}
use osext.Libk.Inside.{NoStrings, NoPairs, Ended, sprintf_safe-Ended}
use osext.Libk.Strings.{k_strlen, strlen_from}
use osext.Libk.Numbers.{digits, digit_char, rev}
use osext.Libk.Memory.{k_memcmp, equal}
use osext.Libk.Strings.{k_strlen, k_streq, strlen_from, streq_from}
use osext.Libk.Numbers.{digits, digit_char, rev, copy_out, sprint_uint32_base_safe}
use osext.Libk.Print.{read, read-sprint_uint32}

abbrev counting : ℕ → ℕ
counting p = p % 2 ^ 8

-- Areas 256 bytes apart agree.
areas_agree : k_memcmp 3 0x103 2 counting ≡ equal
unfolding k_memcmp
areas_agree = refl

-- The strings "ab" and "ba".
abbrev ab : ℕ → ℕ
ab i = if i == 0 then 97 else if i == 1 then 98 else 0

abbrev ba : ℕ → ℕ
ba i = if i == 0 then 98 else if i == 1 then 97 else 0

ab_itself : k_streq ab ab 10 ≡ true
unfolding k_streq k_strlen strlen_from streq_from
ab_itself = refl

ab_length : k_strlen ab 10 ≡ 2
unfolding k_strlen strlen_from
ab_length = refl

-- 255 is written as "ff".
ff : sprint_uint32_base_safe 40 255 16 ≡ 102 ∷ 102 ∷ []
unfolding sprint_uint32_base_safe digits digit_char rev copy_out
ff = refl

read-sprint_uint32_example :
    (read 16 0 (sprint_uint32_base_safe 40 255 16) ≡ 255)
    × (length (sprint_uint32_base_safe 40 255 16) < 40)
read-sprint_uint32_example =
    read-sprint_uint32 40 255 16 (omega arith) (omega arith) (omega arith) (omega arith)
      (omega arith)

abbrev zeros : ℕ → ℕ
zeros q = 0

-- "%d K, %x%%" with 4096 and 255
abbrev sizes : List Piece
sizes = decimal 4096 ∷ plain 32 ∷ plain 75 ∷ plain 44 ∷ plain 32 ∷ hexadecimal 255 ∷ percent ∷ []

written_sizes : text sizes ≡ 52 ∷ 48 ∷ 57 ∷ 54 ∷ 32 ∷ 75 ∷ 44 ∷ 32 ∷ 102 ∷ 102 ∷ 37 ∷ []
unfolding text digits digit_char rev
written_sizes = refl

sprintf_safe_lem_example :
    sprintf_safe 8 1000 (format sizes) 20 (arguments sizes) zeros
    ≡ returned (write_chars 1000 (text sizes) zeros)
unfolding Plain text digits digit_char rev
sprintf_safe_lem_example =
    sprintf_safe_lem sizes 8 1000 20 zeros
      ((refl, refl, (refl, refl, (refl, refl, (refl, refl, tt))))) (omega arith) (omega arith)
      (omega arith)

-- "%d%llx" with buffer of 4 characters
sprintf_safe-Ended_example : Ended 1000 4 zeros (
    sprintf_safe 7 1000
      (37 ∷ 100 ∷ 37 ∷ 108 ∷ 108 ∷ 120 ∷ [])
      4
      (uint32 12345 ∷ uint64 1 ∷ [])
      zeros)
unfolding NoPairs NoStrings char_at
sprintf_safe-Ended_example =
    sprintf_safe-Ended 7 1000 4 (37 ∷ 100 ∷ 37 ∷ 108 ∷ 108 ∷ 120 ∷ [])
      (uint32 12345 ∷ uint64 1 ∷ []) zeros (omega arith) (omega arith)
      (refl, (refl, (refl, (refl, (refl, (refl, tt)))))) tt (omega arith)

-- A string of 4 characters, in a buffer of 4 of which 2 are used: the copy goes behind the buffer.
unfoldable index_after : Round → ℕ
index_after (ended s) = s.index
index_after (again s) = s.index
index_after undefined = 0

copied_too_much :
    index_after (
      print_string 1000 4
        (record { c = 37 ∷ 115 ∷ []; index = 2; va = []; memory = λ q. 65 })
        (string 2000 ∷ []))
    ≡ 7
unfolding index_after print_string k_strlen strlen_from
copied_too_much = refl
