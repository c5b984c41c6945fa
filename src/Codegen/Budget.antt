-- ===== src/Codegen/Budget.antt =====
-- The per-story and pooled budgets and the resume predicate
-- (src/cobol_modernizer/codegen/budget.py). Wall time is in microseconds.
mod Resume
mod Pool
use cobol_java_migrator_v.Prelude.{
  ℕ, ◌*◌, max, String, Bool, true, false, ◌&&◌, ◌||◌, Option, none, some, if◌then◌else◌, or_else,
  ◌==◌, nat_eq, string_eq, pair_eq, option_eq,
}
use cobol_java_migrator_v.Prelude.Int.{ℤ, pos, pos_part, neg_part, sub_ℕ, leb_ℤ, ltb_ℤ, is_neg}

default_story_max_tokens : ℤ
default_story_max_tokens = pos 200000

pub default_build_max_story_attempts : ℕ
default_build_max_story_attempts = 3

pub record StoryBudget : Type 0 where
  pub max_tokens : ℤ
  pub max_wall_us : ℤ
  pub max_repair_attempts : ℤ

unfoldable pub tokens_exceeded : StoryBudget → ℤ → Bool
tokens_exceeded b tokens_used = ltb_ℤ (pos 0) b.max_tokens && ltb_ℤ b.max_tokens tokens_used

unfoldable pub wall_exceeded : StoryBudget → ℤ → Bool
wall_exceeded b wall = ltb_ℤ (pos 0) b.max_wall_us && ltb_ℤ b.max_wall_us wall

unfoldable repair_attempts_exceeded : StoryBudget → ℤ → Bool
repair_attempts_exceeded b attempts = ltb_ℤ b.max_repair_attempts attempts

unfoldable pub exceeded : StoryBudget → ℤ → ℤ → Bool
exceeded b tokens_used wall = tokens_exceeded b tokens_used || wall_exceeded b wall

pub record BuildBudget : Type 0 where
  pub max_pool_tokens : ℤ
  pub per_story_max_tokens : ℤ
  pub per_story_wall_us : ℤ
  pub per_story_repair_attempts : ℤ

unfoldable pub pool_exhausted : BuildBudget → ℤ → Bool
pool_exhausted b tokens_used =
    if is_neg b.max_pool_tokens then false else leb_ℤ b.max_pool_tokens tokens_used

pub story_budget : BuildBudget → StoryBudget
story_budget b = record {
  max_tokens = b.per_story_max_tokens;
  max_wall_us = b.per_story_wall_us;
  max_repair_attempts = b.per_story_repair_attempts;
}

-- The environment, and Python's int() and float() on a text (in microseconds), none where they
-- raise ValueError.
module _ (env : String → Option String) (int : String → Option ℤ) (float : String → Option ℤ) where
  -- _env_int and _env_float of patch_agent.py: the default for a missing or malformed value.
  pub env_number : (String → Option ℤ) → String → ℤ → ℤ
  env_number parse name default = elim (env name) [
    | none ↦ default
    | some raw ↦ or_else (parse raw) default
  ]

  unfoldable story_timeout : ℤ
  story_timeout = env_number float "STORY_CODEGEN_TIMEOUT_S" (pos 120000000)

  unfoldable story_repair_max_attempts : ℤ
  story_repair_max_attempts = env_number int "STORY_REPAIR_MAX_ATTEMPTS" (pos 2)

  pub story_budget_from_env : StoryBudget
  story_budget_from_env = record {
    max_tokens = env_number int "STORY_MAX_TOKENS" default_story_max_tokens;
    max_wall_us = story_timeout;
    max_repair_attempts = story_repair_max_attempts;
  }

  -- max(0, story_count) * max_tokens
  pub times : ℕ → ℤ → ℤ
  times n z = sub_ℕ (n * pos_part z) (n * neg_part z)

  pub build_budget_from_env : ℤ → BuildBudget
  build_budget_from_env story_count =
      let per_story = story_budget_from_env in
      record {
        max_pool_tokens =
            env_number int "BUILD_TOKEN_POOL" (times (pos_part story_count) per_story.max_tokens);
        per_story_max_tokens = per_story.max_tokens;
        per_story_wall_us = per_story.max_wall_us;
        per_story_repair_attempts = per_story.max_repair_attempts;
      }

  pub build_max_story_attempts : ℕ
  build_max_story_attempts = elim (env "BUILD_MAX_STORY_ATTEMPTS") [
    | none ↦ default_build_max_story_attempts
    | some raw ↦ elim (int raw) [
      | none ↦ default_build_max_story_attempts
      | some n ↦ max 1 (pos_part n)
    ]
  ]

-- StoryCodegenStatus and ACCEPTED_STORY_STATUSES of story_plan.py.
pub data Status : Type 0 where
  pending : Status
  running : Status
  passed : Status
  failed : Status
  skipped : Status
  generated_unverified : Status
  blocked : Status
  deferred : Status

unfoldable pub is_accepted : Status → Bool
is_accepted passed = true
is_accepted generated_unverified = true
is_accepted skipped = true
is_accepted _ = false

-- A persisted story_codegen_status record, with the two fields that the decision reads; the status
-- is none for a text that is no StoryCodegenStatus.
pub record PriorRecord : Type 0 where
  pub status : Option Status
  pub context_hash : Option String

pub data Reason : Type 0 where
  first_run : Reason
  not_accepted : Option Status → Reason
  no_context_hash : Reason
  inputs_differ : Reason
  unchanged : Status → Reason

pub record ResumeDecision : Type 0 where
  pub skip : Bool
  pub reason : Reason

pub decide_hash : Status → Option String → String → ResumeDecision
decide_hash s none current = record { skip = false; reason = no_context_hash }
decide_hash s (some prior) current =
    if prior == ""
    then record { skip = false; reason = no_context_hash }
    else if prior == current
    then record { skip = true; reason = unchanged s }
    else record { skip = false; reason = inputs_differ }

unfoldable pub decide : Option PriorRecord → String → ResumeDecision
decide none current = record { skip = false; reason = first_run }
decide (some prior) current = elim prior.status [
  | none ↦ record { skip = false; reason = not_accepted none }
  | some s ↦
      if is_accepted s
      then decide_hash s prior.context_hash current
      else record { skip = false; reason = not_accepted (some s) }
]

pub should_skip : Option PriorRecord → String → Bool
should_skip prior current = (decide prior current).skip
