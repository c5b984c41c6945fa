-- ===== src/Mimic/Codec.antt =====
-- The zoned and packed decimal codecs (src/cobol_modernizer/mimic/codec.py). A value is a signed
-- number of units of the last place: the `Decimal` scaled by 10 ^ scale and rounded to an integer,
-- with its sign, where encoding begins, and the quotient that decoding gives, which has at most 28
-- significant digits; a digit string is the list of its digits, most significant first, and a zoned byte
-- is a digit or an overpunched digit, which "}JKLMNOPQR" writes.
pub mod Digits
pub mod RoundTrip
use mathlib.Core.Option
use cobol_java_migrator_v.Prelude.{
  ℕ, zero, suc, ◌+◌, ◌*◌, ◌/◌, ◌%◌, ◌^◌, Bool, true, false, not, ◌&&◌, ◌||◌, Option, none, some,
  List, [], ◌∷◌, ◌++◌, map, ltb, eqb, if◌then◌else◌, nat_eq, string_eq, pair_eq, option_eq, length,
  all,
}

-- A scaled amount: the sign of the Decimal, before rounding, and the rounded magnitude.
pub record Amount : Type 0 where
  pub negative : Bool
  pub magnitude : ℕ

-- The last n digits of a number, padded with zeros.
pub digits_of : ℕ → ℕ → List ℕ
digits_of zero m = []
digits_of (suc n) m = digits_of n (m / 10) ++ m % 10 ∷ []

-- str(m), on fuel of a round to a digit.
unfoldable pub text_of : ℕ → ℕ → List ℕ
text_of zero m = []
text_of (suc fuel) m =
    let rest = text_of fuel (m / 10) in if ltb m 10 then m ∷ [] else rest ++ m % 10 ∷ []

-- str(int(scaled)).rjust(digits, "0"), cut to s[-digits:]; s[-0:] is the whole text.
unfoldable pub digit_string : ℕ → ℕ → List ℕ
digit_string zero m = text_of (suc m) m
digit_string (suc n) m = digits_of (suc n) m

-- int(s) of a string of digits, from what stands before it.
unfoldable pub number_from : ℕ → List ℕ → ℕ
number_from acc [] = acc
number_from acc (d ∷ ds) = number_from (acc * 10 + d) ds

abbrev pub number : List ℕ → ℕ
number = number_from 0

-- One character of a zoned field: '0'-'9', one of "}JKLMNOPQR", or a space.
pub data Zoned : Type 0 where
  plain : ℕ → Zoned
  overpunched : ℕ → Zoned
  blank : Zoned

-- s[:-1] + overpunch of the last digit.
pub punch_last : List ℕ → List Zoned
punch_last [] = []
punch_last (d ∷ []) = overpunched d ∷ []
punch_last (d ∷ e ∷ ds) = plain d ∷ punch_last (e ∷ ds)

pub encode_zoned : Amount → ℕ → Bool → List Zoned
encode_zoned v digits signed =
    let s = digit_string digits v.magnitude in
    if signed && v.negative then punch_last s else map plain s

pub ends_negative : List Zoned → Bool
ends_negative [] = false
ends_negative (overpunched d ∷ []) = true
ends_negative (z ∷ []) = false
ends_negative (z ∷ y ∷ s) = ends_negative (y ∷ s)

-- The digits of a zoned string; none where Decimal(s) raises: an overpunch before the end, or a
-- space between digits. Spaces at both ends are stripped.
pub is_blank : Zoned → Bool
is_blank blank = true
is_blank _ = false

pub strip_front : List Zoned → List Zoned
strip_front [] = []
strip_front (z ∷ s) = if is_blank z then strip_front s else z ∷ s

-- Only spaces may follow a space that is not in front.
pub plain_digits : List Zoned → Option (List ℕ)
plain_digits [] = some []
plain_digits (plain d ∷ s) = Option.map (λ ds. d ∷ ds) (plain_digits s)
plain_digits (overpunched d ∷ s) = none
plain_digits (blank ∷ s) = if all is_blank s then some [] else none

pub unpunch_last : List Zoned → List Zoned
unpunch_last [] = []
unpunch_last (overpunched d ∷ []) = plain d ∷ []
unpunch_last (z ∷ []) = z ∷ []
unpunch_last (z ∷ y ∷ s) = z ∷ unpunch_last (y ∷ s)

-- The precision of Python's default decimal context.
unfoldable pub bound_28 : ℕ
bound_28 = 10 ^ 28

-- The power of ten that a rounding to 28 digits drops, on fuel of a round to a digit.
unfoldable pub unit_28 : ℕ → ℕ → ℕ
unit_28 zero m = 1
unit_28 (suc fuel) m = let rest = unit_28 fuel (m / 10) in if ltb m bound_28 then 1 else 10 * rest

-- A quotient by 10 ** scale keeps 28 significant digits, a half rounded to even.
unfoldable pub round_28 : ℕ → ℕ
round_28 m =
    let unit = unit_28 m m in
    let q = m / unit in
    let r = m % unit in
    if ltb unit (2 * r) || eqb unit (2 * r) && eqb (q % 2) 1 then suc q * unit else q * unit

-- The value that is given back; -Decimal(0) has no sign.
unfoldable pub value_of : Bool → ℕ → Amount
value_of neg m = record { negative = neg && not (eqb (round_28 m) 0); magnitude = round_28 m }

pub decode_zoned : List Zoned → Bool → Option Amount
decode_zoned raw signed =
    let neg = signed && ends_negative raw in
    Option.map (λ ds. value_of neg (number ds))
      (plain_digits (strip_front (if neg then unpunch_last raw else raw)))

-- Two nibbles to a byte.
pub pack : List ℕ → List ℕ
pack [] = []
pack (h ∷ []) = []
pack (h ∷ l ∷ ns) = (h * 16 + l) ∷ pack ns

pub is_even : ℕ → Bool
is_even n = eqb (n % 2) 0

unfoldable pub sign_nibble : Amount → Bool → ℕ
sign_nibble v signed = if signed && v.negative then 13 else 12

unfoldable pub encode_comp3 : Amount → ℕ → Bool → List ℕ
encode_comp3 v digits signed =
    let s = digit_string digits v.magnitude in
    let odd = if is_even (length s) then 0 ∷ s else s in pack (odd ++ sign_nibble v signed ∷ [])

unfoldable pub unpack : List ℕ → List ℕ
unpack [] = []
unpack (b ∷ bs) = b / 16 ∷ b % 16 ∷ unpack bs

-- nibbles.pop(): what stands before the last, and the last; none for no bytes, where the code raises.
unfoldable pub split_last : List ℕ → Option (List ℕ × ℕ)
split_last [] = none
split_last (n ∷ []) = some ([], n)
split_last (n ∷ m ∷ ns) = Option.map (λ r. (n ∷ r.0, r.1)) (split_last (m ∷ ns))

-- The digits are printed in decimal and read again, so a nibble over 9 counts as two digits.
pub nibble_digits : ℕ → List ℕ
nibble_digits n = if ltb n 10 then n ∷ [] else n / 10 ∷ n % 10 ∷ []

pub joined : List ℕ → List ℕ
joined [] = []
joined (n ∷ ns) = nibble_digits n ++ joined ns

-- None where there is no byte, which the code does not accept either.
pub decode_comp3 : List ℕ → Bool → Option Amount
decode_comp3 raw signed =
    Option.map (λ r. value_of (signed && eqb r.1 13) (number (joined r.0)))
      (split_last (unpack raw))
