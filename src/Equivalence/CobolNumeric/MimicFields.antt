-- ===== src/Equivalence/CobolNumeric/MimicFields.antt =====
-- The packed fields that the mimic writes, read in the lab.
mod Examples
use cobol_java_migrator_v.Prelude.{
  ℕ, suc, ◌+◌, ◌-◌, ◌%◌, ◌^◌, ◌≤◌, ◌<◌, ◌≡◌, refl, ◌∙◌, inl, inr, Bool, true, ◌&&◌, Option, some,
  List, [], ◌∷◌, ◌++◌, arith, ltb, eqb, if◌then◌else◌, Bool-cases, nat_eq, string_eq, pair_eq,
  option_eq, length, is_empty, All,
}
use cobol_java_migrator_v.Prelude.Int.{ℤ, pos, neg}
use mathlib.Core.Option
use native.Mathlib.Nat.{pow-le-pow_right, one-le-pow, mod-lt}
use cobol_java_migrator_v.Mimic.Codec.{
  Amount, digits_of, number, number_from, unpack, split_last, encode_comp3, sign_nibble, is_even,
  pack, digit_string,
}
use cobol_java_migrator_v.Mimic.Codec.Digits.{number-digits_of, digits_of-small}
use cobol_java_migrator_v.Mimic.Codec.RoundTrip.{kept, comp3_nibbles, sign_of, flips}
use cobol_java_migrator_v.Equivalence.CobolNumeric.{
  drop_zeros, span_digits, with_exponent, decimal_of, units, scaled, decode_comp3,
}

-- The number of units of an amount.
pub units_of : Amount → ℤ
units_of a = if a.negative then neg (pos a.magnitude) else pos a.magnitude

number-drop_zeros : (ns : List ℕ) → number (drop_zeros ns) ≡ number ns
unfolding drop_zeros number_from
number-drop_zeros [] = refl
number-drop_zeros (n ∷ ns) = elim (Bool-cases (eqb n 0)) [
  | inl none_here ↦
      let nothing : n ≡ 0 = ground arith in rw (none_here, nothing) (number-drop_zeros ns)
  | inr some_here ↦ rw some_here refl
]

small-drop_zeros : (ns : List ℕ) → All (λ d. d < 10) ns → All (λ d. d < 10) (drop_zeros ns)
unfolding drop_zeros
small-drop_zeros [] small = tt
small-drop_zeros (n ∷ ns) (s, small) = elim (Bool-cases (eqb n 0)) [
  | inl none_here ↦ rw none_here (small-drop_zeros ns small)
  | inr some_here ↦ rw some_here (s, small)
]

span_digits-small : (ns : List ℕ) → All (λ d. d < 10) ns → span_digits ns ≡ (ns, [])
unfolding span_digits
span_digits-small [] small = refl
span_digits-small (n ∷ ns) (s, small) = ground (arith, span_digits-small ns small)

scaled-small :
    (ns : List ℕ) (negative : Bool)
    → All (λ d. d < 10) ns
    → scaled ns negative ≡ units negative (number ns)
unfolding scaled decimal_of with_exponent number_from
scaled-small ns negative small =
    let stripped = drop_zeros ns in
    let same = number-drop_zeros ns in
    let span = span_digits-small stripped (small-drop_zeros ns small) in
    elim (Bool-cases (is_empty stripped)) [
      | inl nothing ↦
          let zero_value : number stripped ≡ 0 = empty_number stripped nothing in
          ground (arith, nothing, same)
      | inr something ↦ ground (arith, something, span, same)
    ]
  where
    empty_number : (xs : List ℕ) → is_empty xs ≡ true → number xs ≡ 0
    empty_number [] h = refl
    empty_number (x ∷ xs) h = absurd (ground arith)

fits_28 : (m n : ℕ) → n ≤ 28 → ltb (m % 10 ^ n) (10 ^ 28) ≡ true
fits_28 m n few =
    let wide = pow-le-pow_right {n = 10} (omega arith) {i = n} {j = 28} few in
    let some_room = one-le-pow n 10 (omega arith) in
    let low = mod-lt m {m = 10 ^ n} (omega arith) in ground arith

read_packed :
    (ns : List ℕ) (s : ℕ) (raw : List ℕ)
    → split_last (unpack raw) ≡ some (ns, s)
    → All (λ d. d < 10) ns
    → decode_comp3 raw ≡ units (eqb s 13) (number ns)
unfolding decode_comp3
read_packed ns s raw nibbles small = rw (nibbles, decode_comp3) (scaled-small ns (eqb s 13) small)

sign_read : (v : Amount) (signed : Bool) → eqb (sign_nibble v signed) 13 ≡ signed && v.negative
unfolding sign_nibble
sign_read v signed = ground arith

-- The lab reads a packed field of 1 to 28 digits that the mimic has written as the amount that the
-- field can hold: its low digits, with the sign where it is signed.
pub decode_comp3-units_of :
    (v : Amount) (n : ℕ) (signed : Bool)
    → n < 28
    → decode_comp3 (encode_comp3 v (suc n) signed) ≡ some (units_of (kept v (suc n) signed))
unfolding decode_comp3 encode_comp3 kept units units_of number_from digit_string
decode_comp3-units_of v n signed few =
    let digits = suc n in
    let ds = digits_of digits v.magnitude in
    let small = digits_of-small digits v.magnitude in
    let (fits, sign) = sign_of v signed in
    let value = number-digits_of digits v.magnitude in
    let room = fits_28 v.magnitude (suc n) (omega arith) in
    let negative = sign_read v signed in
    let s = sign_nibble v signed in
    elim (Bool-cases (is_even (length ds))) [
      | inl even ↦
          let nibbles = comp3_nibbles (0 ∷ ds) s (flips ds even) (omega arith, small) fits in
          rw even (
            read_packed (0 ∷ ds) s (pack ((0 ∷ ds) ++ s ∷ [])) nibbles (omega arith, small)
            ∙ ground (arith, value, negative, room))
      | inr odd ↦
          let nibbles = comp3_nibbles ds s odd small fits in
          rw odd (
            read_packed ds s (pack (ds ++ s ∷ [])) nibbles small
            ∙ ground (arith, value, negative, room))
    ]
