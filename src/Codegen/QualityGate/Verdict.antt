-- ===== src/Codegen/QualityGate/Verdict.antt =====
-- What a passed report means.
use cobol_java_migrator_v.Prelude.{
  ◌≡◌, ◌↔◌, Bool, true, none, arith, nat_eq, string_eq, pair_eq, option_eq,
}
use cobol_java_migrator_v.Prelude.Int.{ℤ, pos, negsuc}
use cobol_java_migrator_v.Codegen.QualityGate.{BuildLog, failing_gate_of, parse_mvn_output}

-- The gate passes exactly when the build exited with 0 and no gate is named as failing; then the
-- code compiled, no test failed, no checker counted anything, and every flag of the report is set.
passes_iff_no_gate :
    (text : BuildLog) (exit_code : ℤ)
    → let r = parse_mvn_output text exit_code in
      ((r.passed ≡ true) ↔ ((exit_code ≡ pos 0) × (r.failing_gate ≡ none)))
      × (r.passed ≡ true
          → (r.compile_ok ≡ true)
            × (r.tests_ok ≡ true)
            × (r.test_failures ≡ 0)
            × (r.spotbugs_bugs ≡ 0)
            × (r.checkstyle_violations ≡ 0)
            × (r.errorprone_ok ≡ true)
            × (r.archunit_ok ≡ true))
unfolding parse_mvn_output failing_gate_of
passes_iff_no_gate text (pos n) = ground arith
passes_iff_no_gate text (negsuc n) = ground arith

-- The same output with other answers for the marks of Error Prone.
marked : Bool → Bool → BuildLog → BuildLog
marked tag word t = record {
  has_compilation_error = t.has_compilation_error;
  has_cannot_find_symbol = t.has_cannot_find_symbol;
  test_counts = t.test_counts;
  spotbugs = t.spotbugs;
  checkstyle = t.checkstyle;
  has_error_prone_tag = tag;
  has_error_prone_word = word;
  has_arch_rule = t.has_arch_rule;
  has_architecture_violation = t.has_architecture_violation;
  error_lines = t.error_lines;
  head = t.head;
}

-- Error Prone never fails the gate: whatever the output says of it, a build that compiled is
-- reported as clean, and the verdict does not depend on its two marks.
error_prone_never_fails :
    (text : BuildLog) (exit_code : ℤ) (tag word : Bool)
    → let r = parse_mvn_output text exit_code in
      let s = parse_mvn_output (marked tag word text) exit_code in
      (s.passed ≡ r.passed)
      × (s.failing_gate ≡ r.failing_gate)
      × (s.compile_ok ≡ true → s.errorprone_ok ≡ true)
unfolding parse_mvn_output failing_gate_of marked
error_prone_never_fails text exit_code tag word = ground arith
