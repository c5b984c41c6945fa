-- ===== src/Mimic/Codec/RoundTrip.antt =====
-- What decoding an encoded amount gives.
mod Examples
use cobol_java_migrator_v.Prelude.{
  ℕ, suc, ◌%◌, ◌^◌, ◌<◌, ◌≡◌, refl, inl, inr, Bool, true, false, not, ◌&&◌, ltb, zero, some, List,
  [], ◌∷◌, ◌++◌, arith, eqb, Bool-cases, nat_eq, string_eq, pair_eq, option_eq, length, All,
  length-append,
}
use cobol_java_migrator_v.Mimic.Codec.{
  Amount, digits_of, encode_zoned, decode_zoned, encode_comp3, decode_comp3, sign_nibble, is_even,
  number, number_from, split_last, unpack, pack, digit_string, bound_28, unit_28, round_28,
  value_of,
}
use native.Mathlib.Nat.{pow-le-pow_right, one-le-pow, mod-lt}
use cobol_java_migrator_v.Mimic.Codec.Digits.{
  number-digits_of, length-digits_of, All-append, digits_of-small, plain_digits-plain,
  ends_negative-plain, ends_negative-punch_last, unpunch_last-punch_last, unpack-pack,
  split_last-append, joined_digits,
}

-- The amount that a field of some digits can hold: the low digits of the magnitude, and the sign if
-- the field is signed and they are not zero.
unfoldable pub kept : Amount → ℕ → Bool → Amount
kept v digits signed = record {
  negative = signed && v.negative && not (eqb (v.magnitude % 10 ^ digits) 0);
  magnitude = v.magnitude % 10 ^ digits;
}

-- Up to 28 digits nothing is rounded.
round_28-small : (m : ℕ) → ltb m bound_28 ≡ true → round_28 m ≡ m
unfolding round_28 unit_28
round_28-small m small = rw (one m) (ground arith)
  where
    one : (fuel : ℕ) → unit_28 fuel m ≡ 1
    one zero = refl
    one (suc fuel) = rw (small, unit_28) refl

fits_28 : (m n : ℕ) → n < 28 → ltb (m % 10 ^ suc n) bound_28 ≡ true
unfolding bound_28
fits_28 m n few =
    let wide = pow-le-pow_right {n = 10} (omega arith) {i = suc n} {j = 28} (omega arith) in
    let some_room = one-le-pow (suc n) 10 (omega arith) in
    let low = mod-lt m {m = 10 ^ suc n} (omega arith) in ground arith

value_of-kept :
    (neg : Bool) (m n : ℕ)
    → n < 28
    → value_of neg (number (digits_of (suc n) m))
      ≡ record { negative = neg && not (eqb (m % 10 ^ suc n) 0); magnitude = m % 10 ^ suc n }
unfolding value_of
value_of-kept neg m n few =
    rw (number-digits_of (suc n) m, value_of, round_28-small (m % 10 ^ suc n) (fits_28 m n few))
      refl

zoned_trip :
    (b signed : Bool) (m n : ℕ)
    → n < 28
    → let v : Amount = record { negative = b; magnitude = m } in
      decode_zoned (encode_zoned v (suc n) signed) signed ≡ some (kept v (suc n) signed)
unfolding decode_zoned encode_zoned kept digit_string
zoned_trip true true m n few =
    let ds = digits_of (suc n) m in
    rw
      (
        ends_negative-punch_last n ds (length-digits_of (suc n) m),
        unpunch_last-punch_last ds,
        plain_digits-plain ds,
        value_of-kept true m n few,
      )
      refl
zoned_trip false true m n few =
    let ds = digits_of (suc n) m in
    rw (ends_negative-plain ds, plain_digits-plain ds, value_of-kept false m n few) refl
zoned_trip b false m n few =
    rw (plain_digits-plain (digits_of (suc n) m), value_of-kept false m n few) refl

-- Decoding a zoned field of 1 to 28 digits gives back the amount that the field can hold: the
-- magnitude without the high digits that do not fit, and the sign where the field is signed and
-- what it holds is not zero.
decode_zoned-encode_zoned :
    (v : Amount) (n : ℕ) (signed : Bool)
    → n < 28
    → decode_zoned (encode_zoned v (suc n) signed) signed ≡ some (kept v (suc n) signed)
decode_zoned-encode_zoned v n signed few = zoned_trip v.negative signed v.magnitude n few

-- An odd number of digits and the sign are read again.
pub comp3_nibbles :
    (ds : List ℕ) (s : ℕ)
    → is_even (length ds) ≡ false
    → All (λ d. d < 10) ds
    → s < 16
    → split_last (unpack (pack (ds ++ s ∷ []))) ≡ some (ds, s)
unfolding is_even
comp3_nibbles ds s odd small sign =
    let even : eqb (length (ds ++ s ∷ []) % 2) 0 ≡ true =
      ground (arith, length-append ds (s ∷ [])) in
    rw (unpack-pack (ds ++ s ∷ []) even (All-append (λ n. n < 16) ds s (nibbles ds small) sign))
      (split_last-append ds s)
  where
    nibbles : (ds : List ℕ) → All (λ d. d < 10) ds → All (λ d. d < 16) ds
    nibbles [] small = tt
    nibbles (d ∷ ds) (here, rest) = (omega arith, nibbles ds rest)

pub sign_of :
    (v : Amount) (signed : Bool)
    → (sign_nibble v signed < 16) × (signed && eqb (sign_nibble v signed) 13 ≡ signed && v.negative)
unfolding sign_nibble
sign_of v signed = ground arith

pub flips : (ds : List ℕ) → is_even (length ds) ≡ true → is_even (suc (length ds)) ≡ false
unfolding is_even
flips ds even = ground arith

-- Decoding a packed field of 1 to 28 digits gives back the amount that the field can hold, whether
-- the number of its digits is odd or even: the low digits, and the sign where the field is signed
-- and what it holds is not zero.
decode_comp3-encode_comp3 :
    (v : Amount) (n : ℕ) (signed : Bool)
    → n < 28
    → decode_comp3 (encode_comp3 v (suc n) signed) signed ≡ some (kept v (suc n) signed)
unfolding decode_comp3 encode_comp3 kept number_from digit_string
decode_comp3-encode_comp3 v n signed few =
    let ds = digits_of (suc n) v.magnitude in
    let small = digits_of-small (suc n) v.magnitude in
    let (fits, sign) = sign_of v signed in
    elim (Bool-cases (is_even (length ds))) [
      | inl even ↦
          rw
            (
              even,
              comp3_nibbles (0 ∷ ds) (sign_nibble v signed) (flips ds even) (omega arith, small)
                  fits,
              joined_digits (0 ∷ ds) (omega arith, small),
              sign,
              value_of-kept (signed && v.negative) v.magnitude n few,
            )
            refl
      | inr odd ↦
          rw
            (
              odd,
              comp3_nibbles ds (sign_nibble v signed) odd small fits,
              joined_digits ds small,
              sign,
              value_of-kept (signed && v.negative) v.magnitude n few,
            )
            refl
    ]
