-- ===== src/StoryRunner/Lifecycle/Outcome/Examples.antt =====
-- Concrete inputs for the theorems of Outcome.
use cobol_java_migrator_v.Codegen.StoryPlan.{StoryItem}
use cobol_java_migrator_v.StoryRunner.Paths.{
  on_first, split, parts, append_text, is_prefix, is_relative_to,
}
use cobol_java_migrator_v.StoryRunner.Plan.{tests_ok, tests_failed, StoryRunResult}
use cobol_java_migrator_v.StoryRunner.Environment.{StoryEnv, RunState}
use cobol_java_migrator_v.StoryRunner.Lifecycle.{run_story}
use cobol_java_migrator_v.StoryRunner.Lifecycle.Outcome.{Settled, run_story-Settled, run_story-root}
use cobol_java_migrator_v.Prelude.{
  ℕ, String, ◌≡◌, refl, true, false, none, some, List, [], ◌∷◌, eqb, if◌then◌else◌, ok, err,
}
use cobol_java_migrator_v.Prelude.Dict.{get}
use cobol_java_migrator_v.Prelude.Int.{pos}
use cobol_java_migrator_v.Codegen.Budget.{pending, passed, BuildBudget}
use cobol_java_migrator_v.Codegen.RepairLoop.{main_file}
use cobol_java_migrator_v.StoryRunner.Lifecycle.Phases.{Keeps}
use cobol_java_migrator_v.Prelude.{string_eq}

abbrev item : String → List String → StoryItem
item id deps = record {
  story_id = id;
  bounded_context = "billing";
  service_name = "billing-service";
  acceptance_criteria_ids = "AC-1" ∷ [];
  cobol_refs = "CBACT04C" ∷ [];
  depends_on = deps;
  status = pending;
}

abbrev items : List StoryItem
items = item "S2" ("S1" ∷ []) ∷ item "S1" [] ∷ []

abbrev budget : BuildBudget
budget = record {
  max_pool_tokens = pos 400000;
  per_story_max_tokens = pos 200000;
  per_story_wall_us = pos 0;
  per_story_repair_attempts = pos 2;
}

abbrev env : StoryEnv String
env = record {
  read_prior = ok none;
  record_running = ok tt;
  mark_running = ok tt;
  enter = λ phase n. ok tt;
  store = ok tt;
  after_store = ok tt;
  context_hash = "9f";
  llm_tests = false;
  llm_impl = true;
  test_fallback = true;
  impl_fallback = true;
  package_lines = "com.bank.api" ∷ [];
  test_paths = "src/test/java/com/bank/api/S1AcceptanceTest.java" ∷ [];
  test_content = "class S1AcceptanceTest {}";
  trace = "/* S1 */";
  has_trace = λ content. false;
  trace_file = record { path = "Trace.java"; kind = main_file; content = ""; evidence = [] };
  existing_java = λ disk.
      record {
        path = "src/main/java/com/bank/api/S.java";
        kind = main_file;
        content = "class S {}";
        evidence = [];
      }
      ∷ [];
  gen_tests = ok [];
  gen_impl = λ n. err "timeout";
  run_tests = λ n disk. (ok (if eqb n 0 then tests_failed else tests_ok), disk);
  telemetry = λ n. (pos 900, pos 1000000);
  token_usage = ("input", pos 900) ∷ [];
  repair_max_attempts = pos 2;
  budget = record { max_tokens = pos 0; max_wall_us = pos 0; max_repair_attempts = pos 2 };
  scan_refs = λ disk acs. ok acs;
  mentions = λ files text. true;
  represented = λ files. true;
  resolve = λ rel. append_text "/work/" rel;
  root = "/work";
  path_error = λ e. "unsafe";
}

abbrev before : RunState
before = record { disk = ("/etc/hosts", "localhost") ∷ []; statuses = [] }

abbrev green : StoryRunResult
green = record {
  story_id = "S1";
  status = passed;
  test_result = some tests_ok;
  attempts = 1;
  ac_covered = "AC-1" ∷ [];
  ac_missing = [];
  changed_files = "src/main/java/com/bank/api/S.java" ∷ [];
  token_usage = ("input", pos 900) ∷ [];
  skipped = false;
}

run_story-Settled_example : Settled env (item "S1" []) (run_story env (item "S1" []) before)
run_story-Settled_example = run_story-Settled env (item "S1" []) before

elsewhere : is_relative_to "/etc/hosts" env.root ≡ false
unfolding is_relative_to is_prefix parts split on_first
elsewhere = refl

left_alone : (n : ℕ) → Keeps "/etc/hosts" (env.run_tests n)
unfolding Keeps
left_alone n disk = refl

run_story-root_example :
    get "/etc/hosts" (run_story env (item "S1" []) before).1.disk ≡ get "/etc/hosts" before.disk
run_story-root_example = run_story-root env (item "S1" []) "/etc/hosts" elsewhere left_alone before
