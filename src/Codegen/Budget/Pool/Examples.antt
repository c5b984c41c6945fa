-- ===== src/Codegen/Budget/Pool/Examples.antt =====
-- Concrete inputs for the theorems of Pool.
use cobol_java_migrator_v.Codegen.Budget.{
  default_story_max_tokens, StoryBudget, exceeded, BuildBudget, pool_exhausted, story_budget,
  env_number, story_budget_from_env, build_budget_from_env,
}
use cobol_java_migrator_v.Codegen.Budget.Pool.{budgets_stay_over}
use cobol_java_migrator_v.Prelude.{String, ◌≡◌, true, Option, none, arith}
use cobol_java_migrator_v.Prelude.Int.{ℤ, pos, ◌<ℤ◌}

abbrev story : StoryBudget
story = record { max_tokens = pos 10; max_wall_us = pos 0; max_repair_attempts = pos 2 }

abbrev build : BuildBudget
build = record {
  max_pool_tokens = pos 20;
  per_story_max_tokens = pos 10;
  per_story_wall_us = pos 0;
  per_story_repair_attempts = pos 2;
}

budgets_stay_over_example :
    (exceeded story (pos 11) (pos 0) ≡ true → exceeded story (pos 12) (pos 5) ≡ true)
    × (pool_exhausted build (pos 11) ≡ true → pool_exhausted build (pos 12) ≡ true)
budgets_stay_over_example =
    budgets_stay_over story build (pos 11) (pos 12) (pos 0) (pos 5) (omega arith) (omega arith)

abbrev unset : String → Option String
unset name = none

abbrev unread : String → Option ℤ
unread raw = none

capped : pos 0 <ℤ (story_budget (build_budget_from_env unset unread unread (pos 3))).max_tokens
unfolding story_budget build_budget_from_env story_budget_from_env env_number
    default_story_max_tokens
capped = omega arith
