-- ===== src/Equivalence/Lab.antt =====
-- The defects, the report and the lab's run (src/cobol_modernizer/equivalence/defect.py, report.py,
-- seam_link.py and lab.py). The graph's writers of a data item are an argument.
mod Defects
use cobol_java_migrator_v.Prelude.{
  ℕ, String, Bool, true, false, Option, none, some, List, [], ◌∷◌, map, if◌then◌else◌, Result, ok,
  ◌>>=◌, nat_eq, string_eq, pair_eq, option_eq, length,
}
use cobol_java_migrator_v.Equivalence.Tolerance.{FieldResult, Reason, numeric_differs, date_differs}
use cobol_java_migrator_v.Equivalence.Differ.{Row, Mismatch, DiffReport, passed, diff_records}

pub record SeamRef : Type 0 where
  pub entity_qname : String
  pub edge_kind : String
  pub file_path : String
  pub line : Option ℕ
  pub unresolved : Bool

-- The graph's writers of `program.field`, the nearest first; each as a resolved reference.
unfoldable resolve_source_seam : (String → String → List SeamRef) → String → String → SeamRef
resolve_source_seam writers program field = elim (writers program field) [
  | [] ↦ record {
    entity_qname = program;
    edge_kind = "";
    file_path = "";
    line = none;
    unresolved = true;
  }
  | w ∷ ws ↦ record {
    entity_qname = w.entity_qname;
    edge_kind = w.edge_kind;
    file_path = w.file_path;
    line = w.line;
    unresolved = false;
  }
]

pub data Severity : Type 0 where
  high : Severity
  medium : Severity

pub record DefectTicket : Type 0 where
  pub workspace_id : String
  pub source_seam : String
  pub seam_edge_kind : String
  pub source_file : String
  pub source_line : Option ℕ
  pub field : String
  pub record_key : String
  pub reason : Option Reason
  pub severity : Severity
  pub dialect_note : String

unfoldable severity_of : Option Reason → Severity
severity_of (some numeric_differs) = high
severity_of (some date_differs) = high
severity_of _ = medium

pub defect_of : (String → String → SeamRef) → String → String → String → Mismatch → DefectTicket
defect_of resolve program workspace_id dialect mm =
    let seam = resolve program mm.field in
    record {
      workspace_id = workspace_id;
      source_seam = seam.entity_qname;
      seam_edge_kind = seam.edge_kind;
      source_file = seam.file_path;
      source_line = seam.line;
      field = mm.field;
      record_key = mm.record_key;
      reason = mm.reason;
      severity = severity_of mm.reason;
      dialect_note = dialect;
    }

pub build_defects :
    (String → String → SeamRef) → String → String → String → DiffReport → List DefectTicket
build_defects resolve program workspace_id dialect report =
    map (defect_of resolve program workspace_id dialect) report.mismatches

pub data Verdict : Type 0 where
  pass : Verdict
  fail : Verdict

-- The open question is the one text that the code adds for recorded fixtures.
pub record EquivalenceReport : Type 0 where
  pub slice_name : String
  pub verdict : Verdict
  pub records_compared : ℕ
  pub defect_count : ℕ
  pub dialect : String
  pub mismatches : List Mismatch
  pub has_open_question : Bool

pub build_report : String → DiffReport → List DefectTicket → String → Bool → EquivalenceReport
build_report slice_name diff defects dialect online = record {
  slice_name = slice_name;
  verdict = if passed diff then pass else fail;
  records_compared = diff.compared;
  defect_count = length defects;
  dialect = dialect;
  mismatches = diff.mismatches;
  has_open_question = online;
}

pub record LabResult : Type 0 where
  pub report : EquivalenceReport
  pub diff : DiffReport
  pub defects : List DefectTicket

module _ {E : Type 0} (compare : String → String → String → Result E FieldResult) (key_error : E)
    (resolve : String → String → SeamRef) (dialect : String) where
  -- run_equivalence, over the latest golden records of the slice.
  pub run_equivalence :
      String → String → String → String → List Row → List Row → String → Bool → Result E LabResult
  run_equivalence workspace_id slice_name program record_name golden candidate record_key online =
      diff_records compare key_error record_key record_name golden candidate >>= λ diff.
      let defects = build_defects resolve program workspace_id dialect diff in
      ok (record {
        report = build_report slice_name diff defects dialect online;
        diff = diff;
        defects = defects;
      })
