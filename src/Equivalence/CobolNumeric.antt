-- ===== src/Equivalence/CobolNumeric.antt =====
-- The readings of COBOL numbers (src/cobol_modernizer/equivalence/cobol_numeric.py): packed decimal
-- and zoned texts, in units of the last place. A reading is none where the code raises: for a text
-- that is no number, and where `quantize` would need more than the 28 digits of Python's decimal
-- context. A zoned text is not empty, its characters are digits and spaces, and the last may be
-- overpunched; other characters are not modelled.
mod MimicFields
use cobol_java_migrator_v.Prelude.{
  ℕ, ◌+◌, ◌*◌, ◌^◌, Bool, true, false, not, ◌&&◌, Option, none, some, List, [], ◌∷◌, ◌++◌, map, ltb,
  eqb, if◌then◌else◌, nat_eq, string_eq, pair_eq, option_eq, is_empty, all,
}
use cobol_java_migrator_v.Prelude.Int.{ℤ, pos, neg}
use mathlib.Core.Option
use cobol_java_migrator_v.Mimic.Codec.{number, unpack, split_last}

-- s.lstrip("0")
pub drop_zeros : List ℕ → List ℕ
drop_zeros [] = []
drop_zeros (n ∷ ns) = let rest = drop_zeros ns in if eqb n 0 then rest else n ∷ ns

pub decimal_digits : List ℕ → Bool
decimal_digits ns = all (λ n. ltb n 10) ns

-- The digits in front, and what follows them.
pub span_digits : List ℕ → List ℕ × List ℕ
span_digits [] = ([], [])
span_digits (n ∷ ns) =
    let rest = span_digits ns in if ltb n 10 then (n ∷ rest.0, rest.1) else ([], n ∷ ns)

-- Decimal(text) of hexadecimal digits: a decimal number, or one with an exponent, since the nibble
-- E is the letter of an exponent.
pub with_exponent : List ℕ → List ℕ → Option ℕ
with_exponent ds [] = some (number ds)
with_exponent ds (e ∷ es) =
    if eqb e 14 && not (is_empty es) && decimal_digits es
    then some (number ds * 10 ^ number es)
    else none

pub decimal_of : List ℕ → Option ℕ
decimal_of ns =
    let parts = span_digits ns in if is_empty parts.0 then none else with_exponent parts.0 parts.1

pub units : Bool → ℕ → Option ℤ
units negative m = if ltb m (10 ^ 28) then some (if negative then neg (pos m) else pos m) else none

-- _scaled and canonicalize: `unscaled_digits.lstrip("0") or "0"`, the sign, and the quantization.
pub scaled : List ℕ → Bool → Option ℤ
scaled digits negative =
    let stripped = drop_zeros digits in
    elim (if is_empty stripped then some 0 else decimal_of stripped) [
      | none ↦ none
      | some m ↦ units negative m
    ]

pub decode_comp3 : List ℕ → Option ℤ
decode_comp3 raw = elim (split_last (unpack raw)) [ none ↦ none | some r ↦ scaled r.0 (eqb r.1 13) ]

-- The last character of a zoned text: as it is, one of "{ABCDEFGHI", or one of "}JKLMNOPQR". A
-- character is a digit, or none for a space.
pub data LastChar : Type 0 where
  as_is : Option ℕ → LastChar
  positive : ℕ → LastChar
  negated : ℕ → LastChar

unfoldable drop_zero_chars : List (Option ℕ) → List (Option ℕ)
drop_zero_chars [] = []
drop_zero_chars (none ∷ cs) = none ∷ cs
drop_zero_chars (some n ∷ cs) =
    let rest = drop_zero_chars cs in if eqb n 0 then rest else some n ∷ cs

pub strip_front : List (Option ℕ) → List (Option ℕ)
strip_front [] = []
strip_front (none ∷ cs) = strip_front cs
strip_front (some n ∷ cs) = some n ∷ cs

unfoldable digits_then_space : List (Option ℕ) → Option (List ℕ)
digits_then_space [] = some []
digits_then_space (none ∷ cs) = if is_empty (strip_front cs) then some [] else none
digits_then_space (some n ∷ cs) = Option.map (λ ds. n ∷ ds) (digits_then_space cs)

unfoldable text_units : List (Option ℕ) → Bool → Option ℤ
text_units text negative =
    let stripped = drop_zero_chars text in
    if is_empty stripped
    then units negative 0
    else elim (digits_then_space (strip_front stripped)) [
      | none ↦ none
      | some ds ↦ if is_empty ds then none else units negative (number ds)
    ]

pub decode_zoned : List (Option ℕ) → LastChar → Option ℤ
decode_zoned body (as_is c) = text_units (body ++ c ∷ []) false
decode_zoned body (positive d) = text_units (body ++ some d ∷ []) false
decode_zoned body (negated d) = text_units (body ++ some d ∷ []) true
