-- ===== src/Mimic/Codec/Digits.antt =====
-- Digit strings, the zoned characters and the nibbles, each undone by its reading.
use cobol_java_migrator_v.Prelude.{
  ℕ, zero, suc, ◌+◌, ◌*◌, ◌/◌, ◌%◌, ◌^◌, ◌<◌, ◌≡◌, refl, sym, ap, ◌∙◌, subst, true, false, some,
  List, [], ◌∷◌, ◌++◌, map, arith, nat_eq, string_eq, pair_eq, option_eq, length, All,
  length-append,
}
use native.Mathlib.Nat.{
  mod-eq_of_lt, mod-lt, add-mul-mod_self_left, mod-add-div, pow-succ', one-le-pow,
}
use mathlib.Core.Option
use cobol_java_migrator_v.Mimic.Codec.{
  digits_of, number_from, number, plain, punch_last, ends_negative, is_blank, strip_front,
  plain_digits, unpunch_last, pack, is_even, unpack, split_last, nibble_digits, joined,
}

number_from-append :
    (acc d : ℕ) (ds : List ℕ) → number_from acc (ds ++ d ∷ []) ≡ number_from acc ds * 10 + d
unfolding number_from
number_from-append acc d [] = refl
number_from-append acc d (x ∷ ds) = number_from-append (acc * 10 + x) d ds

-- A number modulo ten times c is read off its last digit and the rest.
mod_times_ten : (m c : ℕ) → 0 < c → m % (10 * c) ≡ m / 10 % c * 10 + m % 10
mod_times_ten m c positive =
    let q = m / 10 in
    let low = q % c * 10 + m % 10 in
    let whole : low + 10 * c * (q / c) ≡ m = omega (arith, mod-add-div q c, mod-add-div m 10) in
    let small : low < 10 * c = omega (arith, mod-lt q positive) in
    subst (λ x. x % (10 * c) ≡ low) whole
      (add-mul-mod_self_left low (10 * c) (q / c) ∙ mod-eq_of_lt small)

-- The digits of a number, read again, are the number modulo 10 ^ n.
pub number-digits_of : (n m : ℕ) → number (digits_of n m) ≡ m % 10 ^ n
unfolding digits_of number_from
number-digits_of zero m = omega arith
number-digits_of (suc n) m =
    number_from-append 0 (m % 10) (digits_of n (m / 10))
    ∙ rw (number-digits_of n (m / 10), pow-succ' 10 n)
        (sym (mod_times_ten m (10 ^ n) (one-le-pow n 10 (omega arith))))

pub length-digits_of : (n m : ℕ) → length (digits_of n m) ≡ n
unfolding digits_of
length-digits_of zero m = refl
length-digits_of (suc n) m =
    omega (arith, length-append (digits_of n (m / 10)) (m % 10 ∷ []), length-digits_of n (m / 10))

pub All-append : (P : ℕ → Type 0) (xs : List ℕ) (y : ℕ) → All P xs → P y → All P (xs ++ y ∷ [])
All-append P [] y ps p = (p, tt)
All-append P (x ∷ xs) y ps p = (ps.0, All-append P xs y ps.1 p)

pub digits_of-small : (n m : ℕ) → All (λ d. d < 10) (digits_of n m)
unfolding digits_of
digits_of-small zero m = tt
digits_of-small (suc n) m =
    All-append (λ d. d < 10) (digits_of n (m / 10)) (m % 10) (digits_of-small n (m / 10))
      (omega arith)

-- What the zoned decoder makes of plain digits and of punched ones.
pub plain_digits-plain : (ds : List ℕ) → plain_digits (strip_front (map plain ds)) ≡ some ds
unfolding plain_digits strip_front is_blank
plain_digits-plain [] = refl
plain_digits-plain (d ∷ ds) = ap (Option.map (λ r. d ∷ r)) (go ds)
  where
    go : (ds : List ℕ) → plain_digits (map plain ds) ≡ some ds
    go [] = refl
    go (d ∷ ds) = ap (Option.map (λ r. d ∷ r)) (go ds)

pub ends_negative-plain : (ds : List ℕ) → ends_negative (map plain ds) ≡ false
unfolding ends_negative
ends_negative-plain [] = refl
ends_negative-plain (d ∷ []) = refl
ends_negative-plain (d ∷ e ∷ ds) = ends_negative-plain (e ∷ ds)

pub ends_negative-punch_last :
    (n : ℕ) (ds : List ℕ) → length ds ≡ suc n → ends_negative (punch_last ds) ≡ true
unfolding ends_negative punch_last
ends_negative-punch_last n [] size = absurd (omega arith)
ends_negative-punch_last n (d ∷ []) size = refl
ends_negative-punch_last n (d ∷ e ∷ []) size = refl
ends_negative-punch_last n (d ∷ e ∷ f ∷ ds) size =
    ends_negative-punch_last (suc (length ds)) (e ∷ f ∷ ds) refl

pub unpunch_last-punch_last : (ds : List ℕ) → unpunch_last (punch_last ds) ≡ map plain ds
unfolding unpunch_last punch_last
unpunch_last-punch_last [] = refl
unpunch_last-punch_last (d ∷ []) = refl
unpunch_last-punch_last (d ∷ e ∷ []) = refl
unpunch_last-punch_last (d ∷ e ∷ f ∷ ds) =
    ap (λ s. plain d ∷ s) (unpunch_last-punch_last (e ∷ f ∷ ds))

-- Packed nibbles are read again where each is below 16 and their number is even.
pub unpack-pack :
    (ns : List ℕ) → is_even (length ns) ≡ true → All (λ n. n < 16) ns → unpack (pack ns) ≡ ns
unfolding unpack pack is_even
unpack-pack [] even small = refl
unpack-pack (n ∷ []) even small = absurd (ground arith)
unpack-pack (h ∷ l ∷ ns) even (h_small, (l_small, small)) =
    let ih = unpack-pack ns (ground arith) small in
    let high : (h * 16 + l) / 16 ≡ h = omega arith in
    let low : (h * 16 + l) % 16 ≡ l = omega arith in rw (high, low, ih) refl

pub split_last-append : (ns : List ℕ) (s : ℕ) → split_last (ns ++ s ∷ []) ≡ some (ns, s)
unfolding split_last
split_last-append [] s = refl
split_last-append (n ∷ []) s = refl
split_last-append (n ∷ m ∷ ns) s =
    ap (Option.map (λ r. (n ∷ r.0, r.1))) (split_last-append (m ∷ ns) s)

pub joined_digits : (ds : List ℕ) → All (λ d. d < 10) ds → joined ds ≡ ds
unfolding joined nibble_digits
joined_digits [] small = refl
joined_digits (d ∷ ds) (d_small, small) = ground (arith, joined_digits ds small)
