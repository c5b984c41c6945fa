-- ===== src/Codegen/QualityGate.antt =====
-- The reading of the build's output (src/cobol_modernizer/codegen/quality_gate.py). The text is
-- given by what the code asks of it: which phrases it contains and the numbers its patterns find.
mod Verdict
use cobol_java_migrator_v.Prelude.{
  ℕ, ◌+◌, String, Bool, false, not, ◌&&◌, ◌||◌, Option, none, some, ltb, eqb, if◌then◌else◌,
  or_else, is_some, ◌==◌, nat_eq, string_eq, pair_eq, option_eq,
}
use cobol_java_migrator_v.Prelude.Int.{ℤ, pos, negsuc}

-- The answers of `in text` and of the three patterns, and the two cuts of the text.
pub record BuildLog : Type 0 where
  pub has_compilation_error : Bool
  pub has_cannot_find_symbol : Bool
  pub test_counts : Option (ℕ × ℕ)
  pub spotbugs : Option ℕ
  pub checkstyle : Option ℕ
  pub has_error_prone_tag : Bool
  pub has_error_prone_word : Bool
  pub has_arch_rule : Bool
  pub has_architecture_violation : Bool
  pub error_lines : String
  pub head : String

pub data Gate : Type 0 where
  compile : Gate
  test : Gate
  spotbugs_gate : Gate
  checkstyle_gate : Gate
  archunit : Gate

pub record QualityReport : Type 0 where
  pub passed : Bool
  pub compile_ok : Bool
  pub tests_ok : Bool
  pub test_failures : ℕ
  pub spotbugs_bugs : ℕ
  pub checkstyle_violations : ℕ
  pub errorprone_ok : Bool
  pub archunit_ok : Bool
  pub failing_gate : Option Gate
  pub log_excerpt : String

abbrev is_zero : ℤ → Bool
is_zero (pos n) = eqb n 0
is_zero (negsuc n) = false

abbrev failures_of : Option (ℕ × ℕ) → ℕ
failures_of none = 0
failures_of (some (failures, errors)) = failures + errors

pub failing_gate_of : Bool → Bool → ℕ → ℕ → Bool → Option Gate
failing_gate_of compile_ok tests_ok sb cs violation =
    if not compile_ok
    then some compile
    else if not tests_ok
    then some test
    else if ltb 0 sb
    then some spotbugs_gate
    else if ltb 0 cs
    then some checkstyle_gate
    else if violation
    then some archunit
    else none

pub parse_mvn_output : BuildLog → ℤ → QualityReport
parse_mvn_output text exit_code =
    let compile_ok = not text.has_compilation_error && not text.has_cannot_find_symbol in
    let failures = failures_of text.test_counts in
    let tests_ok = eqb failures 0 in
    let sb = or_else text.spotbugs 0 in
    let cs = or_else text.checkstyle 0 in
    let gate = failing_gate_of compile_ok tests_ok sb cs text.has_architecture_violation in
    record {
      passed =
          is_zero exit_code
          && (compile_ok && (tests_ok && (eqb sb 0 && (eqb cs 0 && not (is_some gate)))));
      compile_ok = compile_ok;
      tests_ok = tests_ok;
      test_failures = failures;
      spotbugs_bugs = sb;
      checkstyle_violations = cs;
      errorprone_ok = (not text.has_error_prone_tag && not text.has_error_prone_word) || compile_ok;
      archunit_ok = not text.has_arch_rule || not text.has_architecture_violation;
      failing_gate = gate;
      log_excerpt = if text.error_lines == "" then text.head else text.error_lines;
    }
