-- ===== src/Equivalence/Lab/Defects.antt =====
-- The verdict, the defects and the mismatches of a run.
mod Examples
use cobol_java_migrator_v.Prelude.{
  suc, String, ◌≡◌, refl, ap, subst, ◌↔◌, ◌&&◌, all, contains, inl, inr, Bool, true, List, [], ◌∷◌,
  map, arith, Result, ok, Result-cases, nat_eq, string_eq, pair_eq, option_eq, length, is_empty,
}
use cobol_java_migrator_v.Equivalence.Tolerance.{FieldResult}
use cobol_java_migrator_v.Equivalence.Differ.{
  Row, Mismatch, DiffReport, passed, index, key_list, diff_records,
}
use cobol_java_migrator_v.Equivalence.Differ.Verdict.{is_matched, diff_records-passed}
use cobol_java_migrator_v.Prelude.Dict.{Dict, keys}
use cobol_java_migrator_v.Equivalence.Lab.{
  SeamRef, DefectTicket, defect_of, build_defects, pass, build_report, LabResult, run_equivalence,
}

-- Which record and field each defect, and each mismatch, is about.
places_of_defects : List DefectTicket → List (String × String)
places_of_defects [] = []
places_of_defects (d ∷ ds) = (d.record_key, d.field) ∷ places_of_defects ds

places_of : List Mismatch → List (String × String)
places_of [] = []
places_of (m ∷ ms) = (m.record_key, m.field) ∷ places_of ms

-- A report passes where its diff does.
verdict_iff :
    (diff : DiffReport) (s dialect : String) (ds : List DefectTicket) (online : Bool)
    → ((build_report s diff ds dialect online).verdict ≡ pass) ↔ (passed diff ≡ true)
unfolding build_report
verdict_iff diff s dialect ds online = ground arith

located :
    (resolve : String → String → SeamRef) (program workspace_id dialect : String)
    (ms : List Mismatch)
    → let ds = map (defect_of resolve program workspace_id dialect) ms in
      (length ds ≡ length ms) × (places_of_defects ds ≡ places_of ms)
unfolding defect_of places_of places_of_defects
located resolve program workspace_id dialect [] = (refl, refl)
located resolve program workspace_id dialect (m ∷ ms) =
    let (size, same) = located resolve program workspace_id dialect ms in
    (ap suc size, ap (λ l. (m.record_key, m.field) ∷ l) same)

module _ {E : Type 0} (compare : String → String → String → Result E FieldResult) (key_error : E)
    (resolve : String → String → SeamRef) (dialect : String) where
  -- A run that ends without an error passes exactly when every golden record has a candidate of its
  -- key whose fields are all accepted and every candidate key is the key of a golden record. It files
  -- one defect to a mismatch, in their order and with their keys and fields, and its report counts
  -- them; the diff counts the golden records.
  run_equivalence-defects :
      (w s p n : String) (golden candidate : List Row) (key : String) (online : Bool)
      (r : LabResult)
      → run_equivalence compare key_error resolve dialect w s p n golden candidate key online ≡ ok r
      → (by_key : Dict String Row) × (golden_keys : List String) × (index compare key_error key
            candidate []
          ≡ ok by_key)
        × (key_list compare key_error key golden ≡ ok golden_keys)
        × ((r.report.verdict ≡ pass) ↔ (
            (all (is_matched compare key_error key by_key) golden
              && all (λ k. contains k golden_keys) (keys by_key))
            ≡ true))
        × (r.diff.compared ≡ length golden)
        × (r.report.defect_count ≡ length r.diff.mismatches)
        × (places_of_defects r.defects ≡ places_of r.diff.mismatches)
  unfolding run_equivalence build_report build_defects
  run_equivalence-defects w s p n golden candidate key online r h =
      elim (Result-cases (diff_records compare key_error key n golden candidate)) [
        | inl (e, fails) ↦ absurd (ground (arith, fails))
        | inr (diff, done) ↦
            let defects = build_defects resolve p w dialect diff in
            let facts = located resolve p w dialect diff.mismatches in
            let (by_key, golden_keys, indexed, keyed, compared, verdict) =
              diff_records-passed compare key_error key n golden candidate diff done in
            let same : record {
              report = build_report s diff defects dialect online;
              diff = diff;
              defects = defects;
            }
                ≡ r =
              ground (arith, done, h) in
            let iff = verdict_iff diff s dialect defects online in
            subst
              (λ q.
                (by_key : Dict String Row) × (golden_keys : List String) × (index compare key_error
                    key candidate []
                  ≡ ok by_key)
                × (key_list compare key_error key golden ≡ ok golden_keys)
                × ((q.report.verdict ≡ pass) ↔ (
                    (all (is_matched compare key_error key by_key) golden
                      && all (λ k. contains k golden_keys) (keys by_key))
                    ≡ true))
                × (q.diff.compared ≡ length golden)
                × (q.report.defect_count ≡ length q.diff.mismatches)
                × (places_of_defects q.defects ≡ places_of q.diff.mismatches))
              same
              (
                by_key,
                golden_keys,
                indexed,
                keyed,
                subst
                    (λ b.
                      ((build_report s diff defects dialect online).verdict ≡ pass) ↔ (b ≡ true))
                    verdict iff,
                compared,
                facts.0,
                facts.1,
              )
      ]
