-- ===== src/Strings/Format/Digits.antt =====
-- kern/lib/printfmt.c: the digits of a number.
use native.Mathlib.Nat.{div-add-mod', mod-lt, mod-eq_of_lt, pow-succ', mul-le-mul_left}
use advanced_synchronization.Base.{
  ℕ, zero, suc, ◌+◌, ◌-◌, ◌*◌, ◌/◌, ◌%◌, ◌^◌, ◌<◌, ◌≤◌, ◌≡◌, refl, ap, ◌∙◌, inl, inr, ltb, leb,
  if◌then◌else◌, Bool-cases, List, [], ◌∷◌, ◌++◌, ℤ, pos, negsuc, All, All-append, length,
  length-append, arith,
}
use advanced_synchronization.Strings.Format.{digit_char, repeat, pred, pads, printnum}

-- The value of a character as a digit, and of digits in a base, after the number `acc`.
abbrev pub digit_value : ℕ → ℕ
digit_value c = if ltb c 58 then c - 48 else c - 87

abbrev pub read_digits : ℕ → ℕ → List ℕ → ℕ
read_digits base acc [] = acc
read_digits base acc (c ∷ cs) = read_digits base (acc * base + digit_value c) cs

digit-value : (d : ℕ) → d < 16 → digit_value (digit_char d) ≡ d
digit-value d h = ground arith

read-snoc :
    (base acc : ℕ) (cs : List ℕ) (c : ℕ)
    → read_digits base acc (cs ++ c ∷ []) ≡ read_digits base acc cs * base + digit_value c
read-snoc base acc [] c = refl
read-snoc base acc (d ∷ cs) c = read-snoc base (acc * base + digit_value d) cs c

-- `num / base` needs one bit less.
quotient_lt : (num base f : ℕ) → 2 ≤ base → num < 2 ^ (suc f) → num / base < 2 ^ f
quotient_lt num base f two small =
    omega (arith, div-add-mod' num base, mul-le-mul_left (num / base) two, small, pow-succ' 2 f)

-- A width as a number of characters.
abbrev pub chars : ℤ → ℕ
chars (pos n) = n
chars (negsuc n) = 0

chars-pred : (w : ℤ) → chars (pred w) ≡ chars w - 1
chars-pred (pos zero) = refl
chars-pred (pos (suc n)) = omega arith
chars-pred (negsuc n) = refl

chars-pads : (w : ℤ) → pads w ≡ chars w - 1
chars-pads (pos n) = refl
chars-pads (negsuc n) = refl

-- The output is the number in the base, behind as much padding as the width asks for.
pub record Printed (num base : ℕ) (width : ℤ) (padc : ℕ) (out : List ℕ) : Type 0 where
  pub digits : List ℕ
  pub padding : ℕ
  pub shape : out ≡ repeat padding padc ++ digits
  pub fills : padding ≡ chars width - length digits
  pub value : read_digits base 0 digits ≡ num
  pub valid : All (λ c. digit_value c < base) digits
  pub some_digit : 0 < length digits

append_assoc : (xs ys zs : List ℕ) → (xs ++ ys) ++ zs ≡ xs ++ (ys ++ zs)
append_assoc [] ys zs = refl
append_assoc (x ∷ xs) ys zs = ap (λ t. x ∷ t) (append_assoc xs ys zs)

-- The last digit, behind the others.
Printed-last :
    (num base : ℕ) (width : ℤ) (padc : ℕ) (out : List ℕ)
    → 2 ≤ base
    → base ≤ 16
    → Printed (num / base) base (pred width) padc out
    → Printed num base width padc (out ++ digit_char (num % base) ∷ [])
Printed-last num base width padc out two sixteen p = record {
  digits = p.digits ++ digit_char (num % base) ∷ [];
  padding = p.padding;
  shape =
      ap (λ t. t ++ digit_char (num % base) ∷ []) p.shape
      ∙ append_assoc (repeat p.padding padc) p.digits (digit_char (num % base) ∷ []);
  fills =
      omega
        (arith, p.fills, chars-pred width, length-append p.digits (digit_char (num % base) ∷ []));
  value =
      read-snoc base 0 p.digits (digit_char (num % base))
      ∙ rw (p.value, digit-value (num % base) small) (div-add-mod' num base);
  valid =
      All-append _ p.digits (digit_char (num % base) ∷ []) p.valid
        (rw (digit-value (num % base) small) below, tt);
  some_digit = omega (arith, length-append p.digits (digit_char (num % base) ∷ []));
}
  where
    below : num % base < base
    below = mod-lt num (omega (arith, two))

    small : num % base < 16
    small = omega (arith, below, sixteen)

Printed-first :
    (num base : ℕ) (width : ℤ) (padc : ℕ)
    → num < base
    → base ≤ 16
    → Printed num base width padc (repeat (pads width) padc ++ digit_char num ∷ [])
Printed-first num base width padc small sixteen = record {
  digits = digit_char num ∷ [];
  padding = pads width;
  shape = refl;
  fills = chars-pads width;
  value = omega (arith, digit-value num (omega (arith, small, sixteen)));
  valid = (rw (digit-value num (omega (arith, small, sixteen))) small, tt);
  some_digit = omega arith;
}

fuel_left : (fuel num base : ℕ) → 2 ≤ base → base ≤ num → num < 2 ^ suc fuel → 0 < fuel
fuel_left zero num base two le small = absurd (omega (arith, two, le, small))
fuel_left (suc fuel) num base two le small = omega arith

-- In a base from 2 to 16, and with fuel for the bits of the number, `printnum` puts out the padding
-- that is left of the width, then at least one digit, each below the base, whose value is the number.
pub printnum-Printed :
    (fuel num base : ℕ) (width : ℤ) (padc : ℕ)
    → 2 ≤ base
    → base ≤ 16
    → num < 2 ^ fuel
    → 0 < fuel
    → Printed num base width padc (printnum fuel num base width padc)
unfolding printnum
printnum-Printed zero num base width padc two sixteen small some = absurd (omega (arith, some))
printnum-Printed (suc fuel) num base width padc two sixteen small some =
    elim (Bool-cases (leb base num)) [
      | inl e ↦ rw e (
          Printed-last num base width padc (printnum fuel (num / base) base (pred width) padc) two
            sixteen
            (printnum-Printed fuel (num / base) base (pred width) padc two sixteen
              (quotient_lt num base fuel two small)
              (fuel_left fuel num base two (ground (arith, e)) small)))
      | inr e ↦
          rw (e, mod-eq_of_lt {n = num} {m = base} (ground (arith, e)))
            (Printed-first num base width padc (ground (arith, e)) sixteen)
    ]
