-- ===== src/Codegen/RepairLoop/Loop/Examples.antt =====
-- Concrete inputs for the theorems of Loop.
use cobol_java_migrator_v.Codegen.QualityGate.{test, QualityReport}
use cobol_java_migrator_v.Codegen.RepairLoop.{
  GeneratedFile, GeneratedProject, CodegenResult, run_repair_loop,
}
use cobol_java_migrator_v.Codegen.RepairLoop.Loop.{Explains, run_repair_loop-Explains}
use cobol_java_migrator_v.Prelude.{ℕ, String, ◌≡◌, true, false, some, List, [], Result, ok}

abbrev failing : QualityReport
failing = record {
  passed = false;
  compile_ok = true;
  tests_ok = false;
  test_failures = 1;
  spotbugs_bugs = 0;
  checkstyle_violations = 0;
  errorprone_ok = true;
  archunit_ok = true;
  failing_gate = some test;
  log_excerpt = "Failures: 1";
}

abbrev build_log : ℕ → GeneratedProject → QualityReport
build_log n project = failing

abbrev guard_ok : ℕ → Result String (Unit {0})
guard_ok n = ok tt

abbrev no_patch : ℕ → QualityReport → Result String (List GeneratedFile)
no_patch n r = ok []

abbrev whole : String → String
whole s = s

abbrev empty_project : GeneratedProject
empty_project = record { slice_id = "posting"; files = []; evidence_map = [] }

run_repair_loop-Explains_example :
    (r : Result String CodegenResult) × (run_repair_loop build_log guard_ok no_patch whole 3
        empty_project
      ≡ some r)
    × Explains build_log guard_ok no_patch whole 3 r
run_repair_loop-Explains_example =
    run_repair_loop-Explains build_log guard_ok no_patch whole 3 empty_project
