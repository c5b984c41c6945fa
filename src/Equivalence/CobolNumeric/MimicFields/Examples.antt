-- ===== src/Equivalence/CobolNumeric/MimicFields/Examples.antt =====
-- Concrete inputs for the theorems of MimicFields.
use cobol_java_migrator_v.Equivalence.CobolNumeric.{
  drop_zeros, decimal_digits, span_digits, with_exponent, decimal_of, units, scaled, decode_comp3,
}
use cobol_java_migrator_v.Equivalence.CobolNumeric.MimicFields.{units_of, decode_comp3-units_of}
use cobol_java_migrator_v.Prelude.{◌≡◌, refl, true, some, [], ◌∷◌, arith}
use cobol_java_migrator_v.Prelude.Int.{pos}
use cobol_java_migrator_v.Mimic.Codec.{Amount, encode_comp3, unpack, split_last, number_from}
use cobol_java_migrator_v.Mimic.Codec.RoundTrip.{kept}
use cobol_java_migrator_v.Prelude.Int.{pos}

abbrev balance : Amount
balance = record { negative = true; magnitude = 19405 }

decode_comp3-units_of_example :
    decode_comp3 (encode_comp3 balance 7 true) ≡ some (units_of (kept balance 7 true))
decode_comp3-units_of_example = decode_comp3-units_of balance 6 true (omega arith)

-- A nibble E between digits is read as the letter of an exponent.
exponent : decode_comp3 (30 ∷ 92 ∷ []) ≡ some (pos 100000)
unfolding decode_comp3 scaled drop_zeros decimal_of span_digits with_exponent decimal_digits units
    unpack split_last number_from
exponent = refl
