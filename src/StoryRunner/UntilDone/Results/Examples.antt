-- ===== src/StoryRunner/UntilDone/Results/Examples.antt =====
-- Concrete inputs for the theorems of Results.
use cobol_java_migrator_v.Codegen.StoryPlan.{StoryItem}
use cobol_java_migrator_v.StoryRunner.Plan.{
  StoryRunResult, put_results, look_up, look_up_all, gather, run_waves, run_story_plan,
}
use cobol_java_migrator_v.StoryRunner.Plan.Returns.{Returning}
use cobol_java_migrator_v.StoryRunner.UntilDone.{
  BuildState, sum_ℤ, pool_tokens, record_result, record_results, is_failed, latest_is, failed_ids,
  accepted_ids, item_by_id, retryable, one_pass, retry_items, retry_pass, no_progress, repeat,
  build_passes,
}
use cobol_java_migrator_v.StoryRunner.UntilDone.Results.{build_passes_bounded, repeat_keeps}
use cobol_java_migrator_v.Prelude.{
  ℕ, ◌≤◌, String, ◌≡◌, refl, true, false, none, some, List, [], ◌∷◌, ◌++◌, All, contains, arith,
  eqb, if◌then◌else◌, Result, ok, length,
}
use cobol_java_migrator_v.Prelude.Dict.{get, put}
use cobol_java_migrator_v.Prelude.Int.{pos}
use cobol_java_migrator_v.Prelude.{string_eq}
use cobol_java_migrator_v.Codegen.Budget.{
  Status, pending, passed, failed, is_accepted, BuildBudget, pool_exhausted,
}
use cobol_java_migrator_v.StoryRunner.{dependency_waves, waves_from, next_wave, without}
use cobol_java_migrator_v.Prelude.Int.{◌+ℤ◌}

abbrev item : String → List String → StoryItem
item id deps = record {
  story_id = id;
  bounded_context = "billing";
  service_name = "billing-service";
  acceptance_criteria_ids = "AC-1" ∷ [];
  cobol_refs = "CBACT04C" ∷ [];
  depends_on = deps;
  status = pending;
}

abbrev items : List StoryItem
items = item "S2" ("S1" ∷ []) ∷ item "S1" [] ∷ []

abbrev budget : BuildBudget
budget = record {
  max_pool_tokens = pos 400000;
  per_story_max_tokens = pos 200000;
  per_story_wall_us = pos 0;
  per_story_repair_attempts = pos 2;
}

-- A story that fails in its first pass and is green in the second.
abbrev outcome : ℕ → StoryItem → StoryRunResult
outcome n it = record {
  story_id = it.story_id;
  status = if eqb n 0 then failed else passed;
  test_result = none;
  attempts = 1;
  ac_covered = [];
  ac_missing = [];
  changed_files = [];
  token_usage = ("input", pos 900) ∷ [];
  skipped = false;
}

abbrev run : ℕ → StoryItem → List (String × Status) → Result String StoryRunResult
run n it prior = ok (outcome n it)

abbrev key_error : String → String
key_error k = k

abbrev returns : (n : ℕ) → Returning (run n)
returns n it prior = (outcome n it, refl, refl)

build_passes_bounded_example :
    (end : BuildState) × (build_passes key_error run budget 3 items ≡ some (ok end))
    × (length end.passes ≤ 3)
build_passes_bounded_example =
    build_passes_bounded key_error run budget 3 items returns (omega arith)

-- After a pass in which S1 was accepted and S2 failed.
abbrev half_done : BuildState
half_done = record {
  attempts = ("S2", 1) ∷ ("S1", 1) ∷ [];
  latest = ("S2", outcome 0 (item "S2" [])) ∷ ("S1", outcome 1 (item "S1" [])) ∷ [];
  pool_used = pos 1800;
  passes = ("S2" ∷ "S1" ∷ []) ∷ [];
}

abbrev all_done : BuildState
all_done = record {
  attempts = ("S2", 2) ∷ ("S1", 1) ∷ [];
  latest = ("S2", outcome 1 (item "S2" [])) ∷ ("S1", outcome 1 (item "S1" [])) ∷ [];
  pool_used = pos 2700;
  passes = ("S2" ∷ "S1" ∷ []) ∷ ("S2" ∷ []) ∷ [];
}

repeated : repeat key_error run budget 3 items 3 half_done ≡ some (ok all_done)
unfolding repeat retry_pass one_pass retry_items failed_ids retryable item_by_id record_results
    record_result is_failed is_accepted accepted_ids no_progress look_up look_up_all run_story_plan
    run_waves gather put_results dependency_waves waves_from next_wave without get put
    pool_exhausted pool_tokens sum_ℤ ◌+ℤ◌
repeated = refl

accepted_before : latest_is is_accepted half_done.latest "S1" ≡ true
unfolding get is_accepted
accepted_before = refl

repeat_keeps_example :
    (get "S1" all_done.latest ≡ get "S1" half_done.latest)
    × (later : List (List String)) × (all_done.passes ≡ half_done.passes ++ later)
    × All (λ (ids : List String). contains "S1" ids ≡ false) later
repeat_keeps_example =
    repeat_keeps key_error run budget 3 items returns 3 half_done all_done "S1" accepted_before
      repeated
