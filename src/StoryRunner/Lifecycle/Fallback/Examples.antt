-- ===== src/StoryRunner/Lifecycle/Fallback/Examples.antt =====
-- Concrete inputs for the theorems of Fallback.
use cobol_java_migrator_v.Codegen.StoryPlan.{StoryItem}
use cobol_java_migrator_v.StoryRunner.Paths.{append_text}
use cobol_java_migrator_v.StoryRunner.Plan.{tests_ok, tests_failed}
use cobol_java_migrator_v.StoryRunner.Environment.{StoryEnv, RunState}
use cobol_java_migrator_v.Prelude.{
  String, string_eq, true, false, none, List, [], ◌∷◌, eqb, if◌then◌else◌, ok, err,
}
use cobol_java_migrator_v.Prelude.Int.{pos}
use cobol_java_migrator_v.Codegen.Budget.{pending}
use cobol_java_migrator_v.Codegen.RepairLoop.{main_file}

abbrev item : String → List String → StoryItem
item id deps = record {
  story_id = id;
  bounded_context = "billing";
  service_name = "billing-service";
  acceptance_criteria_ids = "AC-1" ∷ [];
  cobol_refs = "CBACT04C" ∷ [];
  depends_on = deps;
  status = pending;
}

abbrev items : List StoryItem
items = item "S2" ("S1" ∷ []) ∷ item "S1" [] ∷ []

abbrev env : StoryEnv String
env = record {
  read_prior = ok none;
  record_running = ok tt;
  mark_running = ok tt;
  enter = λ phase n. ok tt;
  store = ok tt;
  after_store = ok tt;
  context_hash = "9f";
  llm_tests = false;
  llm_impl = true;
  test_fallback = true;
  impl_fallback = true;
  package_lines = "com.bank.api" ∷ [];
  test_paths = "src/test/java/com/bank/api/S1AcceptanceTest.java" ∷ [];
  test_content = "class S1AcceptanceTest {}";
  trace = "/* S1 */";
  has_trace = λ content. false;
  trace_file = record { path = "Trace.java"; kind = main_file; content = ""; evidence = [] };
  existing_java = λ disk.
      record {
        path = "src/main/java/com/bank/api/S.java";
        kind = main_file;
        content = "class S {}";
        evidence = [];
      }
      ∷ [];
  gen_tests = ok [];
  gen_impl = λ n. err "timeout";
  run_tests = λ n disk. (ok (if eqb n 0 then tests_failed else tests_ok), disk);
  telemetry = λ n. (pos 900, pos 1000000);
  token_usage = ("input", pos 900) ∷ [];
  repair_max_attempts = pos 2;
  budget = record { max_tokens = pos 0; max_wall_us = pos 0; max_repair_attempts = pos 2 };
  scan_refs = λ disk acs. ok acs;
  mentions = λ files text. true;
  represented = λ files. true;
  resolve = λ rel. append_text "/work/" rel;
  root = "/work";
  path_error = λ e. "unsafe";
}

abbrev before : RunState
before = record { disk = ("/etc/hosts", "localhost") ∷ []; statuses = [] }
