-- ===== src/Mimic/Codec/RoundTrip/Examples.antt =====
-- Concrete inputs for the theorems of RoundTrip.
use cobol_java_migrator_v.Mimic.Codec.{
  Amount, encode_zoned, decode_zoned, encode_comp3, decode_comp3,
}
use cobol_java_migrator_v.Mimic.Codec.RoundTrip.{
  kept, decode_zoned-encode_zoned, decode_comp3-encode_comp3,
}
use cobol_java_migrator_v.Prelude.{◌≡◌, true, some, arith}

abbrev owed : Amount
owed = record { negative = true; magnitude = 1234567 }

decode_zoned-encode_zoned_example :
    decode_zoned (encode_zoned owed 6 true) true ≡ some (kept owed 6 true)
decode_zoned-encode_zoned_example = decode_zoned-encode_zoned owed 5 true (omega arith)

decode_comp3-encode_comp3_example :
    decode_comp3 (encode_comp3 owed 7 true) true ≡ some (kept owed 7 true)
decode_comp3-encode_comp3_example = decode_comp3-encode_comp3 owed 6 true (omega arith)
