-- ===== src/Strings/Tests.antt =====
-- The theorems on strings at the memory with the bytes 7, 8, 0 at 10 and at 20.
use advanced_synchronization.Base.{
  ℕ, [], ◌∷◌, ◌≡◌, ◌↔◌, refl, some, ◌==◌, if◌then◌else◌, pos, arith,
}
use advanced_synchronization.Strings.Format.{
  printnum, vprintfmt, print_from, round, convert_char, read_width, getuint,
}
use advanced_synchronization.Strings.Format.Digits.{Printed, printnum-Printed}
use advanced_synchronization.Strings.{Bytes, memcmp}
use advanced_synchronization.Strings.Compare.{SameBytes, memcmp-zero_iff}

abbrev memory : Bytes
memory a =
    if a == 10 then 7 else if a == 20 then 7 else if a == 11 then 8 else if a == 21 then 8 else 0

memcmp-zero_iff_example : (memcmp memory 10 20 3 ≡ pos 0) ↔ SameBytes memory 10 20 3
memcmp-zero_iff_example = memcmp-zero_iff memory 10 20 3

-- 255 as "00ff".
printnum-Printed_example : Printed 255 16 (pos 4) 48 (48 ∷ 48 ∷ 102 ∷ 102 ∷ [])
unfolding printnum
printnum-Printed_example =
    printnum-Printed 64 255 16 (pos 4) 48 (omega arith) (omega arith) (omega arith) (omega arith)

-- "a%03x%%" with 10 at the address 1.
abbrev format : ℕ → ℕ
format a =
    if a == 1
    then 97
    else if a == 2
    then 37
    else if a == 3
    then 48
    else if a == 4
    then 51
    else if a == 5
    then 120
    else if a == 6
    then 37
    else if a == 7
    then 37
    else 0

vprintfmt_test : vprintfmt 20 format 1 (10 ∷ []) ≡ some (97 ∷ 48 ∷ 48 ∷ 97 ∷ 37 ∷ [])
unfolding vprintfmt print_from round convert_char read_width getuint printnum
vprintfmt_test = refl
