-- ===== src/Equivalence/Differ/Verdict.antt =====
-- When a diff passes.
mod Examples
use cobol_java_migrator_v.Prelude.{
  String, ◌≡◌, refl, ◌∙◌, subst, inl, inr, Bool, false, ◌&&◌, none, some, List, [], ◌∷◌, ◌++◌,
  arith, Option-cases, or_else, Result, ok, err, Result-cases, nat_eq, string_eq, pair_eq,
  option_eq, length, is_empty, all, contains,
}
use cobol_java_migrator_v.Prelude.Dict.{Dict, get, keys}
use cobol_java_migrator_v.Equivalence.Tolerance.{FieldResult}
use cobol_java_migrator_v.Equivalence.Differ.{
  Row, Mismatch, DiffReport, passed, key_of, index, key_list, diff_fields, diff_row, diff_golden,
  unexpected, diff_records,
}

append-empty : (xs ys : List Mismatch) → is_empty (xs ++ ys) ≡ (is_empty xs && is_empty ys)
append-empty [] ys = refl
append-empty (x ∷ xs) ys = refl

module _ {E : Type 0} (compare : String → String → String → Result E FieldResult) (key_error : E)
    (key : String) where
  -- The comparison accepts a field.
  accepts : Row → String × String → Bool
  accepts c (name, v) = elim (compare name v (or_else (get name c) "")) [
    | err e ↦ false
    | ok r ↦ r.ok_field
  ]

  -- A golden record has a candidate of its key, and each of its fields is accepted.
  pub is_matched : Dict String Row → Row → Bool
  is_matched by_key g = elim (get key g) [
    | none ↦ false
    | some k ↦ elim (get k by_key) [ none ↦ false | some c ↦ all (accepts c) g ]
  ]

  diff_fields-empty :
      (k : String) (c g : Row) (ms : List Mismatch)
      → diff_fields compare key_error key k c g ≡ ok ms
      → is_empty ms ≡ all (accepts c) g
  unfolding diff_fields accepts
  diff_fields-empty k c [] ms h = ground arith
  diff_fields-empty k c ((name, v) ∷ g) ms h =
      elim (Result-cases (compare name v (or_else (get name c) ""))) [
        | inl (e, fails) ↦ absurd (ground (arith, fails))
        | inr (r, gives) ↦ elim (Result-cases (diff_fields compare key_error key k c g)) [
          | inl (e, fails) ↦ absurd (ground (arith, fails, gives))
          | inr (rest, done) ↦ ground (arith, diff_fields-empty k c g rest done, gives, done, h)
        ]
      ]

  diff_row-empty :
      (by_key : Dict String Row) (g : Row) (ms : List Mismatch)
      → diff_row compare key_error key by_key g ≡ ok ms
      → is_empty ms ≡ is_matched by_key g
  unfolding diff_row key_of is_matched
  diff_row-empty by_key g ms h = elim (Option-cases (get key g)) [
    | inl keyless ↦ absurd (ground (arith, keyless))
    | inr (k, keyed) ↦ elim (Option-cases (get k by_key)) [
      | inl absent ↦ ground (arith, keyed, absent)
      | inr (c, present) ↦
          let fields : diff_fields compare key_error key k c g ≡ ok ms =
            ground (arith, keyed, present, h) in
          diff_fields-empty k c g ms fields ∙ ground (arith, keyed, present)
    ]
  ]

  diff_golden-empty :
      (by_key : Dict String Row) (golden : List Row) (ms : List Mismatch)
      → diff_golden compare key_error key by_key golden ≡ ok ms
      → is_empty ms ≡ all (is_matched by_key) golden
  unfolding diff_golden
  diff_golden-empty by_key [] ms h = ground arith
  diff_golden-empty by_key (g ∷ golden) ms h =
      elim (Result-cases (diff_row compare key_error key by_key g)) [
        | inl (e, fails) ↦ absurd (ground (arith, fails))
        | inr (here, row) ↦ elim (Result-cases (diff_golden compare key_error key by_key golden)) [
          | inl (e, fails) ↦ absurd (ground (arith, fails, row))
          | inr (rest, done) ↦
              let same : here ++ rest ≡ ms = ground (arith, row, done, h) in
              subst (λ l. is_empty l ≡ all (is_matched by_key) (g ∷ golden)) same
                (append-empty here rest
                  ∙ ground (
                    arith,
                    diff_row-empty by_key g here row,
                    diff_golden-empty by_key golden rest done,
                  ))
        ]
      ]

  unexpected-empty :
      (golden_keys ks : List String)
      → is_empty (unexpected compare key_error key golden_keys ks)
        ≡ all (λ k. contains k golden_keys) ks
  unfolding unexpected
  unexpected-empty golden_keys [] = refl
  unexpected-empty golden_keys (k ∷ ks) = ground (arith, unexpected-empty golden_keys ks)

  -- A diff that ends without an error has compared every golden record, and it passes exactly when
  -- every golden record has a candidate of its key whose fields are all accepted and every candidate
  -- key is the key of a golden record.
  pub diff_records-passed :
      (record_name : String) (golden candidate : List Row) (r : DiffReport)
      → diff_records compare key_error key record_name golden candidate ≡ ok r
      → (by_key : Dict String Row) × (golden_keys : List String) × (index compare key_error key
            candidate []
          ≡ ok by_key)
        × (key_list compare key_error key golden ≡ ok golden_keys)
        × (r.compared ≡ length golden)
        × (passed r
            ≡ (all (is_matched by_key) golden && all (λ k. contains k golden_keys) (keys by_key)))
  unfolding diff_records passed
  diff_records-passed record_name golden candidate r h =
      elim (Result-cases (index compare key_error key candidate [])) [
        | inl (e, fails) ↦ absurd (ground (arith, fails))
        | inr (by_key, indexed) ↦
            elim (Result-cases (diff_golden compare key_error key by_key golden)) [
              | inl (e, fails) ↦ absurd (ground (arith, fails, indexed))
              | inr (ms, done) ↦ elim (Result-cases (key_list compare key_error key golden)) [
                | inl (e, fails) ↦ absurd (ground (arith, fails, indexed, done))
                | inr (golden_keys, keyed) ↦
                    let extra = unexpected compare key_error key golden_keys (keys by_key) in
                    let same : ms ++ extra ≡ r.mismatches =
                      ground (arith, indexed, done, keyed, h) in
                    let verdict =
                      append-empty ms extra
                      ∙ ground (
                        arith,
                        diff_golden-empty by_key golden ms done,
                        unexpected-empty golden_keys (keys by_key),
                      ) in
                    (
                      by_key,
                      golden_keys,
                      indexed,
                      keyed,
                      ground (arith, indexed, done, keyed, h),
                      subst
                          (λ l. is_empty l ≡ (
                            all (is_matched by_key) golden
                            && all (λ k. contains k golden_keys) (keys by_key)))
                          same verdict,
                    )
              ]
            ]
      ]
