-- ===== src/Equivalence/Differ/Verdict/Examples.antt =====
-- Concrete inputs for the theorems of Verdict.
use cobol_java_migrator_v.Equivalence.Tolerance.{FieldResult}
use cobol_java_migrator_v.Equivalence.Differ.{
  Row, DiffReport, passed, key_of, index, key_list, diff_fields, diff_row, diff_golden, unexpected,
  diff_records,
}
use cobol_java_migrator_v.Equivalence.Differ.Verdict.{is_matched, diff_records-passed}
use cobol_java_migrator_v.Prelude.{
  String, ◌≡◌, refl, ◌&&◌, none, List, [], ◌∷◌, Result, ok, ◌==◌, length, all, contains,
}
use cobol_java_migrator_v.Prelude.Dict.{Dict, get, put, keys}
use cobol_java_migrator_v.Prelude.{string_eq}

abbrev agree : String → String → String → Result String FieldResult
agree name g c = ok (record { field = name; ok_field = g == c; reason = none })

abbrev row : String → Dict String String
row balance = ("acct", "1") ∷ ("balance", balance) ∷ []

abbrev clean_report : DiffReport
clean_report = record { record_name = "ACCOUNT"; compared = 1; mismatches = [] }

diffed :
    diff_records agree "KeyError" "acct" "ACCOUNT" (row "10" ∷ []) (row "10" ∷ []) ≡ ok clean_report
unfolding diff_records index key_of diff_golden diff_row diff_fields key_list unexpected get put
diffed = refl

diff_records-passed_example :
    (by_key : Dict String Row) × (golden_keys : List String) × (index agree "KeyError" "acct"
        (row "10" ∷ [])
        []
      ≡ ok by_key)
    × (key_list agree "KeyError" "acct" (row "10" ∷ []) ≡ ok golden_keys)
    × (clean_report.compared ≡ length (row "10" ∷ []))
    × (passed clean_report ≡ (
        all (is_matched agree "KeyError" "acct" by_key) (row "10" ∷ [])
        && all (λ k. contains k golden_keys) (keys by_key)))
diff_records-passed_example =
    diff_records-passed agree "KeyError" "acct" "ACCOUNT" (row "10" ∷ []) (row "10" ∷ [])
      clean_report diffed
