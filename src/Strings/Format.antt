-- ===== src/Strings/Format.antt =====
-- kern/lib/printfmt.c: the characters that `vprintfmt` hands to `putch`. The arguments are the words of
-- the argument list; a pointer, an `int` and a `long` are one, a `long long` two, the low one first.
pub mod Digits
use advanced_synchronization.Base.{
  ℕ, zero, suc, ◌+◌, ◌-◌, ◌*◌, ◌/◌, ◌%◌, ◌^◌, ltb, leb, ◌==◌, ◌&&◌, ◌||◌, not, if◌then◌else◌, Bool,
  true, false, Option, none, some, List, [], ◌∷◌, ◌++◌, map, length, ℤ, pos, negsuc,
}
use advanced_synchronization.Strings.{Bytes}

-- "0123456789abcdef"[d].
abbrev pub digit_char : ℕ → ℕ
digit_char d = if ltb d 10 then 48 + d else 87 + d

abbrev pub repeat : ℕ → ℕ → List ℕ
repeat zero c = []
repeat (suc n) c = c ∷ repeat n c

-- `width - 1`, and the rounds of `while (--width > 0)`.
abbrev pub pred : ℤ → ℤ
pred (pos zero) = negsuc zero
pred (pos (suc n)) = pos n
pred (negsuc n) = negsuc (n + 1)

abbrev pub pads : ℤ → ℕ
pads (pos n) = n - 1
pads (negsuc n) = 0

-- The recursion has fuel for the digits.
unfoldable pub printnum : ℕ → ℕ → ℕ → ℤ → ℕ → List ℕ
printnum zero num base width padc = []
printnum (suc fuel) num base width padc =
    let rest = printnum fuel (num / base) base (pred width) padc in
    (if leb base num then rest else repeat (pads width) padc) ++ digit_char (num % base) ∷ []

-- Is a number of so many bits negative, and its magnitude.
abbrev pub signed : ℕ → ℕ → Bool × ℕ
signed w bits = if ltb w (2 ^ (bits - 1)) then (false, w) else (true, 2 ^ bits - w)

-- `getuint` with the arguments left. `getint` reads the same bits.
unfoldable pub getuint : ℕ → List ℕ → Option (ℕ × List ℕ)
getuint lflag [] = none
getuint lflag (w ∷ []) = if leb 2 lflag then none else some (w, [])
getuint lflag (w ∷ v ∷ ap) = if leb 2 lflag then some (w + 2 ^ 32 * v, ap) else some (w, v ∷ ap)

abbrev pub int_bits : ℕ → ℕ
int_bits lflag = if leb 2 lflag then 64 else 32

-- The characters of a string in memory, up to its terminating 0.
unfoldable pub chars_of : ℕ → Bytes → ℕ → List ℕ
chars_of zero m p = []
chars_of (suc n) m p = let rest = chars_of n m (p + 1) in if m p == 0 then [] else m p ∷ rest

-- "(null)".
abbrev pub null_chars : List ℕ
null_chars = 40 ∷ 110 ∷ 117 ∷ 108 ∷ 108 ∷ 41 ∷ []

-- What a conversion has read of its flags, with `start` for the address behind its '%'.
pub record Conversion : Type 0 where
  pub start : ℕ
  pub padc : ℕ
  pub width : ℤ
  pub precision : ℤ
  pub lflag : ℕ
  pub altflag : Bool

abbrev pub fresh : ℕ → Conversion
fresh start = record {
  start = start;
  padc = 32;
  width = negsuc 0;
  precision = negsuc 0;
  lflag = 0;
  altflag = false;
}

-- `process_precision`.
abbrev pub with_precision : ℤ → Conversion → Conversion
with_precision p v = elim v.width [
  | pos w ↦ record v { precision = p }
  | negsuc w ↦ record v { width = p; precision = negsuc 0 }
]

abbrev pub with_point : Conversion → Conversion
with_point v = elim v.width [ pos w ↦ v | negsuc w ↦ record v { width = pos 0 } ]

-- The loop over the digits of a width, from the number read so far: the address behind it.
unfoldable pub read_width : ℕ → Bytes → ℕ → ℕ → ℕ × ℕ
read_width zero m fmt precision = (precision, fmt)
read_width (suc n) m fmt precision =
    let rest = read_width n m (fmt + 1) (precision * 10 + (m fmt - 48)) in
    if leb 48 (m fmt) && leb (m fmt) 57 then rest else (precision, fmt)

abbrev take : ℕ → List ℕ → List ℕ
take zero cs = []
take (suc n) [] = []
take (suc n) (c ∷ cs) = c ∷ take n cs

-- The characters that a precision lets through.
abbrev pub cut : ℤ → List ℕ → List ℕ
cut (negsuc _) cs = cs
cut (pos n) cs = take n cs

abbrev pub shown : Bool → ℕ → ℕ
shown altflag c = if altflag && (ltb c 32 || ltb 126 c) then 63 else c

-- The case of `%s`.
unfoldable pub print_string : List ℕ → Conversion → List ℕ
print_string cs v = elim v.width [
  | negsuc _ ↦ map (shown v.altflag) (cut v.precision cs)
  | pos w ↦
      if v.padc == 45
      then map (shown v.altflag) (cut v.precision cs) ++ repeat (w - length (cut v.precision cs)) 32
      else repeat (w - length (cut v.precision cs)) v.padc
        ++ map (shown v.altflag) (cut v.precision cs)
]

-- A number has less than 2 ^ 64 and so at most 64 digits.
abbrev pub print_unsigned : ℕ → ℕ → Conversion → List ℕ
print_unsigned num base v = printnum 64 num base v.width v.padc

unfoldable pub print_signed : Bool × ℕ → Conversion → List ℕ
print_signed (negative, num) v = (if negative then 45 ∷ [] else []) ++ print_unsigned num 10 v

-- A character of the text, or of a conversion.
pub data Mode : Type 0 where
  text : Mode
  conversion : Conversion → Mode

-- What a character of the format comes to: the next piece of output, where the format goes on, the
-- arguments left and the mode; or the end of the format, or an argument that is missing.
pub data Round : Type 0 where
  ended missing : Round
  goes_on : List ℕ → ℕ → List ℕ → Mode → Round

-- A conversion of an argument, and the text behind it.
abbrev pub convert : ℕ → Option (List ℕ × List ℕ) → Round
convert fmt none = missing
convert fmt (some (out, ap)) = goes_on out fmt ap text

abbrev pub next_word : List ℕ → (ℕ → List ℕ) → Option (List ℕ × List ℕ)
next_word [] f = none
next_word (w ∷ ap) f = some (f w, ap)

abbrev pub next_uint : ℕ → List ℕ → (ℕ → List ℕ) → Option (List ℕ × List ℕ)
next_uint lflag ap f = elim (getuint lflag ap) [ none ↦ none | some (n, ap') ↦ some (f n, ap') ]

-- `*`: the precision is an argument.
abbrev pub star : ℕ → List ℕ → Conversion → Round
star fmt [] v = missing
star fmt (w ∷ ap) v =
    goes_on [] fmt ap
      (conversion (with_precision (if ltb w (2 ^ 31) then pos w else negsuc (2 ^ 32 - 1 - w)) v))

-- The switch on the character `ch` in front of `fmt`; `fuel` is for strings and widths.
unfoldable pub convert_char : ℕ → Bytes → ℕ → ℕ → List ℕ → Conversion → Round
unfolding chars_of read_width print_string print_signed printnum getuint
convert_char fuel m ch fmt ap v =
    if ch == 45
    then goes_on [] fmt ap (conversion (record v { padc = 45 }))
    else if ch == 48
    then goes_on [] fmt ap (conversion (record v { padc = 48 }))
    else if leb 49 ch && leb ch 57
    then (let r = read_width fuel m fmt (ch - 48) in
        goes_on [] r.1 ap (conversion (with_precision (pos r.0) v)))
    else if ch == 42
    then star fmt ap v
    else if ch == 46
    then goes_on [] fmt ap (conversion (with_point v))
    else if ch == 35
    then goes_on [] fmt ap (conversion (record v { altflag = true }))
    else if ch == 108
    then goes_on [] fmt ap (conversion (record v { lflag = v.lflag + 1 }))
    else if ch == 99
    then convert fmt (next_word ap (λ w. w ∷ []))
    else if ch == 115
    then convert fmt
        (next_word ap (λ p. print_string (if p == 0 then null_chars else chars_of fuel m p) v))
    else if ch == 100
    then convert fmt (next_uint v.lflag ap (λ n. print_signed (signed n (int_bits v.lflag)) v))
    else if ch == 117
    then convert fmt (next_uint v.lflag ap (λ n. print_unsigned n 10 v))
    else if ch == 111
    then convert fmt (next_uint v.lflag ap (λ n. print_unsigned n 8 v))
    else if ch == 112
    then convert fmt (next_word ap (λ w. 48 ∷ 120 ∷ print_unsigned w 16 v))
    else if ch == 120
    then convert fmt (next_uint v.lflag ap (λ n. print_unsigned n 16 v))
    else if ch == 37
    then goes_on (37 ∷ []) fmt ap text
    else goes_on (37 ∷ []) v.start ap text

unfoldable pub round : ℕ → Bytes → ℕ → List ℕ → Mode → Round
round fuel m fmt ap text =
    if m fmt == 37
    then goes_on [] (fmt + 1) ap (conversion (fresh (fmt + 1)))
    else if m fmt == 0
    then ended
    else goes_on (m fmt ∷ []) (fmt + 1) ap text
round fuel m fmt ap (conversion v) = convert_char fuel m (m fmt) (fmt + 1) ap v

-- The output of the format at `fmt`, for as many rounds as there is fuel for.
unfoldable pub print_from : ℕ → Bytes → ℕ → List ℕ → Mode → Option (List ℕ)
print_from zero m fmt ap mode = none
print_from (suc fuel) m fmt ap mode = elim (round fuel m fmt ap mode) [
  | ended ↦ some []
  | missing ↦ none
  | goes_on out fmt' ap' mode' ↦ elim (print_from fuel m fmt' ap' mode') [
    | none ↦ none
    | some rest ↦ some (out ++ rest)
  ]
]

unfoldable pub vprintfmt : ℕ → Bytes → ℕ → List ℕ → Option (List ℕ)
vprintfmt fuel m fmt ap = print_from fuel m fmt ap text
