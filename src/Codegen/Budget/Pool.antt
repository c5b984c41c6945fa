-- ===== src/Codegen/Budget/Pool.antt =====
-- The order of the budget gates.
mod Examples
use cobol_java_migrator_v.Prelude.{
  ℕ, ◌*◌, ◌≤◌, String, ◌≡◌, ◌↔◌, true, Option, none, arith, nat_eq, string_eq, pair_eq, option_eq,
}
use cobol_java_migrator_v.Prelude.Int.{ℤ, pos, pos_part, ◌≤ℤ◌, ◌<ℤ◌}
use cobol_java_migrator_v.Codegen.Budget.{
  StoryBudget, BuildBudget, tokens_exceeded, wall_exceeded, exceeded, pool_exhausted, story_budget,
  env_number, times, story_budget_from_env, build_budget_from_env, build_max_story_attempts,
  default_build_max_story_attempts,
}

-- Once a story's budget is over, it stays over with more tokens and more time; and once the pool is
-- exhausted it stays exhausted.
budgets_stay_over :
    (s : StoryBudget) (b : BuildBudget) (t u w v : ℤ)
    → t ≤ℤ u
    → w ≤ℤ v
    → (exceeded s t w ≡ true → exceeded s u v ≡ true)
      × (pool_exhausted b t ≡ true → pool_exhausted b u ≡ true)
unfolding exceeded tokens_exceeded wall_exceeded pool_exhausted
budgets_stay_over s b t u w v tu wv = ground arith

module _ (env : String → Option String) (int : String → Option ℤ) (float : String → Option ℤ) where
  -- Whatever the environment holds, the outer loop makes at least one attempt; and where
  -- BUILD_TOKEN_POOL is unset the pool is exhausted, at a positive story cap, exactly from
  -- story_count times that cap on.
  pool_from_env :
      (n : ℕ) (t : ℤ)
      → env "BUILD_TOKEN_POOL" ≡ none
      → pos 0 <ℤ (story_budget (build_budget_from_env env int float (pos n))).max_tokens
      → (1 ≤ build_max_story_attempts env int float)
        × ((pool_exhausted (build_budget_from_env env int float (pos n)) t ≡ true) ↔ (
            pos
              (n * pos_part (story_budget (build_budget_from_env env int float (pos n))).max_tokens)
            ≤ℤ t))
  unfolding pool_exhausted build_budget_from_env story_budget build_max_story_attempts
      default_build_max_story_attempts env_number times story_budget_from_env
  pool_from_env n t unset positive = ground arith
