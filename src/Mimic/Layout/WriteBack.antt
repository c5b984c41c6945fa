-- ===== src/Mimic/Layout/WriteBack.antt =====
-- What the write-back writes.
mod Examples
use cobol_java_migrator_v.Prelude.{
  ℕ, zero, suc, ◌+◌, ◌-◌, String, ◌≡◌, refl, sym, ap, ◌∙◌, subst, inl, inr, none, some, List, [],
  ◌∷◌, ◌++◌, arith, Option-cases, Result, ok, err, ◌>>=◌, ◌>>◌, Result-cases, nat_eq, string_eq,
  pair_eq, option_eq, length, take, drop, replicate, length-append, length-replicate, length-take,
}
use cobol_java_migrator_v.Prelude.Dict.{Dict, values}
use cobol_java_migrator_v.Mimic.Layout.{
  Field, Item, build_layout, value_of, reclen, overwrite, fitted, fill_of, check_names,
  write_fields, encode,
}
use cobol_java_migrator_v.Mimic.Layout.Spans.{IsContiguous, build_layout-IsContiguous}

append_assoc : (xs ys zs : List ℕ) → (xs ++ ys) ++ zs ≡ xs ++ (ys ++ zs)
append_assoc [] ys zs = refl
append_assoc (x ∷ xs) ys zs = ap (λ l. x ∷ l) (append_assoc xs ys zs)

replicate-add : (m n a : ℕ) → replicate (m + n) a ≡ replicate m a ++ replicate n a
replicate-add zero n a = ap (λ k. replicate k a) (omega arith)
replicate-add (suc m) n a =
    let next : suc m + n ≡ suc (m + n) = omega arith in
    ap (λ k. replicate k a) next ∙ ap (λ l. a ∷ l) (replicate-add m n a)

take-length_append : (xs ys : List ℕ) → take (length xs) (xs ++ ys) ≡ xs
take-length_append [] ys = refl
take-length_append (x ∷ xs) ys = ap (λ l. x ∷ l) (take-length_append xs ys)

drop-length_append : (xs ys : List ℕ) → drop (length xs) (xs ++ ys) ≡ ys
drop-length_append [] ys = refl
drop-length_append (x ∷ xs) ys = drop-length_append xs ys

abbrev empty : List ℕ
empty = []

drop-empty : (n : ℕ) → drop n [] ≡ empty
drop-empty zero = refl
drop-empty (suc n) = refl

drop-add : (m n : ℕ) (xs : List ℕ) → drop (m + n) xs ≡ drop n (drop m xs)
drop-add zero n xs = ap (λ k. drop k xs) (omega arith)
drop-add (suc m) n [] = drop-empty (suc m + n) ∙ sym (drop-empty n)
drop-add (suc m) n (x ∷ xs) =
    let next : suc m + n ≡ suc (m + n) = omega arith in
    ap (λ k. drop k (x ∷ xs)) next ∙ drop-add m n xs

drop-replicate : (m n a : ℕ) → drop m (replicate (m + n) a) ≡ replicate n a
drop-replicate m n a = rw (replicate-add m n a) (
    subst (λ k. drop k (replicate m a ++ replicate n a) ≡ replicate n a) (length-replicate m a)
      (drop-length_append (replicate m a) (replicate n a)))

length-fitted : (n fill : ℕ) (cell : List ℕ) → length (fitted n fill cell) ≡ n
unfolding fitted
length-fitted n fill cell = omega (
  arith,
  length-take n (cell ++ replicate (n - length cell) fill),
  length-append cell (replicate (n - length cell) fill),
  length-replicate (n - length cell) fill,
)

overwrite_next :
    (pre cell : List ℕ) (rest a : ℕ)
    → overwrite (length pre) cell (pre ++ replicate (length cell + rest) a)
      ≡ (pre ++ cell) ++ replicate rest a
unfolding overwrite
overwrite_next pre cell rest a =
    let buf = pre ++ replicate (length cell + rest) a in
    let behind : drop (length pre + length cell) buf ≡ replicate rest a =
      drop-add (length pre) (length cell) buf
      ∙ ap (drop (length cell)) (drop-length_append pre (replicate (length cell + rest) a))
      ∙ drop-replicate (length cell) rest a in
    rw (take-length_append pre (replicate (length cell + rest) a), behind) refl

module _ {V E : Type 0} (encode_field : Field → V → Result E (List ℕ)) (unknown : String → E) where
  -- The record as the copybook describes it: the fields' cells one behind the other, each of its
  -- field's length, with spaces for FILLER and for a field without a value.
  cell_of : Field → Dict String V → Result E (List ℕ)
  cell_of f values = elim (value_of f values) [
    | none ↦ ok (replicate f.length 32)
    | some v ↦ encode_field f v >>= λ cell. ok (fitted f.length (fill_of f) cell)
  ]

  render : List Field → Dict String V → Result E (List ℕ)
  render [] values = ok []
  render (f ∷ fs) values =
      cell_of f values >>= λ cell. render fs values >>= λ rest. ok (cell ++ rest)

  blank_next :
      (f : Field) (fs : List Field) (pre : List ℕ)
      → pre ++ replicate (reclen (f ∷ fs)) 32
        ≡ (pre ++ replicate f.length 32) ++ replicate (reclen fs) 32
  unfolding reclen
  blank_next f fs pre =
      ap (λ l. pre ++ l) (replicate-add f.length (reclen fs) 32)
      ∙ sym (append_assoc pre (replicate f.length 32) (replicate (reclen fs) 32))

  cell_next :
      (f : Field) (fs : List Field) (pre cell : List ℕ)
      → f.offset ≡ length pre
      → overwrite f.offset
          (fitted f.length (fill_of f) cell)
          (pre ++ replicate (reclen (f ∷ fs)) 32)
        ≡ (pre ++ fitted f.length (fill_of f) cell) ++ replicate (reclen fs) 32
  unfolding reclen
  cell_next f fs pre cell here =
      let c = fitted f.length (fill_of f) cell in
      ap (λ o. overwrite o c (pre ++ replicate (reclen (f ∷ fs)) 32)) here
      ∙ subst
          (λ n.
            overwrite (length pre) c (pre ++ replicate (n + reclen fs) 32)
            ≡ (pre ++ c) ++ replicate (reclen fs) 32)
          (length-fitted f.length (fill_of f) cell) (overwrite_next pre c (reclen fs) 32)

  regroup :
      (pre cell : List ℕ) (r : Result E (List ℕ))
      → (r >>= λ rest. ok ((pre ++ cell) ++ rest))
        ≡ ((r >>= λ rest. ok (cell ++ rest)) >>= λ rest. ok (pre ++ rest))
  regroup pre cell (ok rest) = ap ok (append_assoc pre cell rest)
  regroup pre cell (err e) = refl

  step :
      (f : Field) (fs : List Field) (values : Dict String V) (pre cell : List ℕ)
      → length cell ≡ f.length
      → IsContiguous (length pre + f.length) fs
      → (IsContiguous (length (pre ++ cell)) fs
          → write_fields encode_field unknown fs values ((pre ++ cell) ++ replicate (reclen fs) 32)
            ≡ (render fs values >>= λ rest. ok ((pre ++ cell) ++ rest)))
      → write_fields encode_field unknown fs values ((pre ++ cell) ++ replicate (reclen fs) 32)
        ≡ ((render fs values >>= λ rest. ok (cell ++ rest)) >>= λ rest. ok (pre ++ rest))
  step f fs values pre cell size tiles rest_written =
      let whole : length pre + f.length ≡ length (pre ++ cell) =
        omega (arith, length-append pre cell, size) in
      rest_written (subst (λ n. IsContiguous n fs) whole tiles)
      ∙ regroup pre cell (render fs values)

  write_fields-render :
      (fs : List Field) (values : Dict String V) (pre : List ℕ)
      → IsContiguous (length pre) fs
      → write_fields encode_field unknown fs values (pre ++ replicate (reclen fs) 32)
        ≡ (render fs values >>= λ rest. ok (pre ++ rest))
  unfolding write_fields render reclen IsContiguous cell_of
  write_fields-render [] values pre tiles = refl
  write_fields-render (f ∷ fs) values pre (here, tiles) = elim (Option-cases (value_of f values)) [
    | inl absent ↦
        let cell = replicate f.length 32 in
        rw (write_fields, render, cell_of, absent, blank_next f fs pre)
          (step f fs values pre cell (length-replicate f.length 32) tiles
            (write_fields-render fs values (pre ++ cell)))
    | inr (v, given) ↦ elim (Result-cases (encode_field f v)) [
      | inl (e, fails) ↦ rw (write_fields, render, cell_of, given, fails) refl
      | inr (bytes, gives) ↦
          let cell = fitted f.length (fill_of f) bytes in
          rw (write_fields, render, cell_of, given, gives, cell_next f fs pre bytes here)
            (step f fs values pre cell (length-fitted f.length (fill_of f) bytes) tiles
              (write_fields-render fs values (pre ++ cell)))
    ]
  ]

  ok_of : (r : Result E (List ℕ)) → (r >>= λ rest. ok ([] ++ rest)) ≡ r
  ok_of (ok a) = refl
  ok_of (err e) = refl

  -- For the layout of any items, encoding through slices of one buffer gives the concatenation of
  -- the cells, and the same errors: a name that no field has is refused before any field is encoded.
  encode-render :
      (items : List Item) (values : Dict String V)
      → encode encode_field unknown (build_layout items) values ≡ (
          check_names encode_field unknown (build_layout items) values
          >> render (build_layout items) values)
  unfolding encode
  encode-render items values =
      ap (λ r. check_names encode_field unknown (build_layout items) values >> r)
        (write_fields-render (build_layout items) values [] (build_layout-IsContiguous items).0
          ∙ ok_of (render (build_layout items) values))
