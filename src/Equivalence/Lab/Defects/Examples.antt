-- ===== src/Equivalence/Lab/Defects/Examples.antt =====
-- Concrete inputs for the theorems of Defects.
use cobol_java_migrator_v.Equivalence.Tolerance.{FieldResult}
use cobol_java_migrator_v.Equivalence.Differ.{
  Row, DiffReport, key_of, index, key_list, diff_fields, diff_row, diff_golden, unexpected,
  diff_records,
}
use cobol_java_migrator_v.Equivalence.Differ.Verdict.{is_matched}
use cobol_java_migrator_v.Equivalence.Lab.{
  SeamRef, resolve_source_seam, DefectTicket, build_defects, pass, build_report, LabResult,
  run_equivalence,
}
use cobol_java_migrator_v.Equivalence.Lab.Defects.{
  places_of_defects, places_of, run_equivalence-defects,
}
use cobol_java_migrator_v.Prelude.{
  String, ◌≡◌, refl, ◌↔◌, ◌&&◌, true, all, contains, false, none, List, [], ◌∷◌, Result, ok, ◌==◌,
  length,
}
use cobol_java_migrator_v.Prelude.Dict.{Dict, get, put, keys}
use cobol_java_migrator_v.Prelude.{string_eq}

abbrev agree : String → String → String → Result String FieldResult
agree name g c = ok (record { field = name; ok_field = g == c; reason = none })

abbrev row : String → Dict String String
row balance = ("acct", "1") ∷ ("balance", balance) ∷ []

abbrev no_writers : String → String → List SeamRef
no_writers program field = []

abbrev resolve : String → String → SeamRef
resolve = resolve_source_seam no_writers

abbrev wrong_balance : DiffReport
wrong_balance = record {
  record_name = "ACCOUNT";
  compared = 1;
  mismatches = record { record_key = "1"; field = "balance"; reason = none } ∷ [];
}

abbrev tickets : List DefectTicket
tickets = build_defects resolve "CBTRN02C" "w" "GnuCOBOL" wrong_balance

abbrev failed_run : LabResult
failed_run = record {
  report = build_report "posting" wrong_balance tickets "GnuCOBOL" false;
  diff = wrong_balance;
  defects = tickets;
}

ran :
    run_equivalence agree "KeyError" resolve "GnuCOBOL" "w" "posting" "CBTRN02C" "ACCOUNT"
      (row "10" ∷ [])
      (row "11" ∷ [])
      "acct"
      false
    ≡ ok failed_run
unfolding run_equivalence diff_records index key_of diff_golden diff_row diff_fields key_list
    unexpected get put
ran = refl

run_equivalence-defects_example :
    (by_key : Dict String Row) × (golden_keys : List String) × (index agree "KeyError" "acct"
        (row "11" ∷ [])
        []
      ≡ ok by_key)
    × (key_list agree "KeyError" "acct" (row "10" ∷ []) ≡ ok golden_keys)
    × ((failed_run.report.verdict ≡ pass) ↔ (
        (all (is_matched agree "KeyError" "acct" by_key) (row "10" ∷ [])
          && all (λ k. contains k golden_keys) (keys by_key))
        ≡ true))
    × (failed_run.diff.compared ≡ length (row "10" ∷ []))
    × (failed_run.report.defect_count ≡ length failed_run.diff.mismatches)
    × (places_of_defects failed_run.defects ≡ places_of failed_run.diff.mismatches)
run_equivalence-defects_example =
    run_equivalence-defects agree "KeyError" resolve "GnuCOBOL" "w" "posting" "CBTRN02C" "ACCOUNT"
      (row "10" ∷ []) (row "11" ∷ []) "acct" false failed_run ran
