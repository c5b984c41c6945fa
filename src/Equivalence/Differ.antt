-- ===== src/Equivalence/Differ.antt =====
-- The diff of golden and candidate records (src/cobol_modernizer/equivalence/differ.py). A record is
-- a dict of texts; the comparison of a field may raise, and so does a record without its key.
pub mod Verdict
use cobol_java_migrator_v.Prelude.{
  ℕ, String, Bool, Option, none, some, List, [], ◌∷◌, ◌++◌, if◌then◌else◌, or_else, Result, ok, err,
  ◌>>=◌, nat_eq, string_eq, pair_eq, option_eq, length, is_empty, contains,
}
use cobol_java_migrator_v.Prelude.Dict.{Dict, get, put, keys}
use cobol_java_migrator_v.Equivalence.Tolerance.{
  FieldResult, Reason, missing_in_candidate, unexpected_in_candidate,
}

abbrev pub Row : Type 0
Row = Dict String String

pub record Mismatch : Type 0 where
  pub record_key : String
  pub field : String
  pub reason : Option Reason

pub record DiffReport : Type 0 where
  pub record_name : String
  pub compared : ℕ
  pub mismatches : List Mismatch

unfoldable pub passed : DiffReport → Bool
passed r = is_empty r.mismatches

module _ {E : Type 0} (compare : String → String → String → Result E FieldResult) (key_error : E)
    (key : String) where
  -- r[key]
  unfoldable pub key_of : Row → Result E String
  key_of r = elim (get key r) [ none ↦ err key_error | some k ↦ ok k ]

  -- {r[key]: r for r in candidate}, put over a dict.
  unfoldable pub index : List Row → Dict String Row → Result E (Dict String Row)
  index [] d = ok d
  index (r ∷ rs) d = key_of r >>= λ k. index rs (put k r d)

  unfoldable pub key_list : List Row → Result E (List String)
  key_list [] = ok []
  key_list (r ∷ rs) = key_of r >>= λ k. key_list rs >>= λ ks. ok (k ∷ ks)

  -- The loop over the golden record's fields.
  unfoldable pub diff_fields : String → Row → Row → Result E (List Mismatch)
  diff_fields k c [] = ok []
  diff_fields k c ((name, g_val) ∷ g) = compare name g_val (or_else (get name c) "") >>= λ result.
      diff_fields k c g >>= λ rest. ok (
        if result.ok_field
        then rest
        else record { record_key = k; field = name; reason = result.reason } ∷ rest)

  unfoldable pub diff_row : Dict String Row → Row → Result E (List Mismatch)
  diff_row by_key g = key_of g >>= λ k. elim (get k by_key) [
    | none ↦
        ok (record { record_key = k; field = "<record>"; reason = some missing_in_candidate } ∷ [])
    | some c ↦ diff_fields k c g
  ]

  unfoldable pub diff_golden : Dict String Row → List Row → Result E (List Mismatch)
  diff_golden by_key [] = ok []
  diff_golden by_key (g ∷ golden) =
      diff_row by_key g >>= λ ms. diff_golden by_key golden >>= λ rest. ok (ms ++ rest)

  -- The candidate keys with no golden record.
  unfoldable pub unexpected : List String → List String → List Mismatch
  unexpected golden_keys [] = []
  unexpected golden_keys (k ∷ ks) =
      let rest = unexpected golden_keys ks in
      if contains k golden_keys
      then rest
      else record { record_key = k; field = "<record>"; reason = some unexpected_in_candidate }
        ∷ rest

  unfoldable pub diff_records : String → List Row → List Row → Result E DiffReport
  diff_records record_name golden candidate = index candidate [] >>= λ by_key.
      diff_golden by_key golden >>= λ ms. key_list golden >>= λ golden_keys. ok (record {
        record_name = record_name;
        compared = length golden;
        mismatches = ms ++ unexpected golden_keys (keys by_key);
      })
