-- ===== src/StoryRunner/UntilDone.antt =====
-- The passes that repeat a plan until it is done (`run_story_plan_until_done` of
-- src/cobol_modernizer/codegen/story_runner.py). The state is what its local variables hold; a call
-- of `on_pass` is an entry of `passes`. The record that `_mark_deferred` persists is not modelled.
mod Step
mod Ends
pub mod Results
use cobol_java_migrator_v.Prelude.{
  ℕ, zero, suc, ◌+◌, max, String, Bool, true, false, ◌||◌, Option, none, some, List, [], ◌∷◌, ◌++◌,
  map, ltb, if◌then◌else◌, or_else, Result, ok, err, ◌>>=◌, ◌>>◌, nat_eq, string_eq, pair_eq,
  option_eq, length, is_empty, keep_if, all, contains,
}
use mathlib.Core.Option
use cobol_java_migrator_v.Prelude.Dict.{Dict, get, put, keys, values}
use cobol_java_migrator_v.Prelude.Int.{ℤ, pos, ◌+ℤ◌}
use cobol_java_migrator_v.Codegen.Budget.{
  Status, failed, deferred, is_accepted, BuildBudget, pool_exhausted,
}
use cobol_java_migrator_v.Codegen.StoryPlan.{StoryItem}
use cobol_java_migrator_v.StoryRunner.Plan.{StoryRunResult, look_up, look_up_all, run_story_plan}

pub record BuildState : Type 0 where
  pub attempts : Dict String ℕ
  pub latest : Dict String StoryRunResult
  pub pool_used : ℤ
  pub passes : List (List String)

abbrev pub attempts_of : BuildState → String → ℕ
attempts_of st s = or_else (get s st.attempts) 0

pub sum_ℤ : List ℤ → ℤ
sum_ℤ [] = pos 0
sum_ℤ (x ∷ xs) = x +ℤ sum_ℤ xs

pub pool_tokens : StoryRunResult → ℤ
pool_tokens out = sum_ℤ (values out.token_usage)

-- The body of the for loop over the results of a pass, and the loop.
pub record_result : StoryRunResult → BuildState → BuildState
record_result out st = record {
  attempts = put out.story_id (suc (attempts_of st out.story_id)) st.attempts;
  latest = put out.story_id out st.latest;
  pool_used = st.pool_used +ℤ pool_tokens out;
  passes = st.passes;
}

pub record_results : List StoryRunResult → BuildState → BuildState
record_results [] st = st
record_results (o ∷ outs) st = record_results outs (record_result o st)

pub is_failed : Status → Bool
is_failed failed = true
is_failed _ = false

-- Where a result stands for the story and its status passes the test.
abbrev pub latest_is : (Status → Bool) → Dict String StoryRunResult → String → Bool
latest_is p latest s = elim (get s latest) [ none ↦ false | some o ↦ p o.status ]

pub failed_ids : List StoryItem → Dict String StoryRunResult → List String
failed_ids items latest = keep_if (latest_is is_failed latest) (map (λ it. it.story_id) items)

pub accepted_ids : Dict String StoryRunResult → List String
accepted_ids latest = keep_if (latest_is is_accepted latest) (keys latest)

-- {it.story_id: it for it in items}
pub item_by_id : List StoryItem → Dict String StoryItem → Dict String StoryItem
item_by_id [] d = d
item_by_id (it ∷ its) d = item_by_id its (put it.story_id it d)

-- The failed stories under their attempt cap.
pub retryable : ℕ → List StoryItem → BuildState → List String
retryable cap items st = keep_if (λ s. ltb (attempts_of st s) cap) (failed_ids items st.latest)

-- `_mark_deferred`: the last result again, as deferred.
pub mark_deferred : StoryRunResult → StoryRunResult
mark_deferred out = record {
  story_id = out.story_id;
  status = deferred;
  test_result = out.test_result;
  attempts = out.attempts;
  ac_covered = out.ac_covered;
  ac_missing = out.ac_missing;
  changed_files = out.changed_files;
  token_usage = out.token_usage;
  skipped = false;
}

module _ {E : Type 0} (key_error : String → E)
    (run : ℕ → StoryItem → List (String × Status) → Result E StoryRunResult) (budget : BuildBudget)
    (cap : ℕ) (items : List StoryItem) where
  -- The n-th pass; `passes` counts those before it.
  pub one_pass : List StoryItem → BuildState → Option (Result E BuildState)
  one_pass pass_items st =
      Option.map
        (λ results. results >>= λ outs. ok (
          record_results outs
            (record st { passes = st.passes ++ map (λ it. it.story_id) pass_items ∷ [] })))
        (run_story_plan key_error run (length st.passes) pass_items)

  pub retry_items : List String → Result E (List StoryItem)
  retry_items ids = look_up_all key_error ids (item_by_id items [])

  -- A pass over the stories to retry.
  pub retry_pass : BuildState → Option (Result E BuildState)
  retry_pass st = elim (retry_items (retryable cap items st)) [
    | err e ↦ some (err e)
    | ok pass_items ↦ one_pass pass_items st
  ]

  -- accepted_after <= accepted_before
  pub no_progress : BuildState → BuildState → Bool
  no_progress before after =
      all (λ s. contains s (accepted_ids before.latest)) (accepted_ids after.latest)

  -- The while loop, on fuel: none where it runs out.
  pub repeat : ℕ → BuildState → Option (Result E BuildState)
  repeat zero st = none
  repeat (suc fuel) st =
      if is_empty (failed_ids items st.latest)
        || is_empty (retryable cap items st)
        || pool_exhausted budget st.pool_used
      then some (ok st)
      else elim (retry_pass st) [
        | none ↦ none
        | some (err e) ↦ some (err e)
        | some (ok next) ↦ if no_progress st next then some (ok next) else repeat fuel next
      ]

  abbrev pub initial : BuildState
  initial = record { attempts = []; latest = []; pool_used = pos 0; passes = [] }

  -- A pass over the whole plan, then the loop: a round to an attempt, and one to stop.
  pub build_passes : Option (Result E BuildState)
  build_passes = elim (one_pass items initial) [
    | none ↦ none
    | some (err e) ↦ some (err e)
    | some (ok st) ↦ repeat (suc cap) st
  ]

  -- The for loop that defers what still fails; `item_by_id[sid]` only feeds the record.
  pub defer_all : List String → Dict String StoryRunResult → Result E (Dict String StoryRunResult)
  defer_all [] latest = ok latest
  defer_all (s ∷ ss) latest = look_up key_error s latest >>= λ out.
      look_up key_error s (item_by_id items []) >>= λ item.
      defer_all ss (put s (mark_deferred out) latest)

  pub until_done : Option (Result E (List StoryRunResult))
  until_done =
      Option.map
        (λ passed. passed >>= λ st. defer_all (failed_ids items st.latest) st.latest >>= λ latest.
          look_up_all key_error (map (λ it. it.story_id) items) latest)
        build_passes

-- The attempt cap is one at least.
pub run_story_plan_until_done :
    {E : Type 0} (key_error : String → E)
    (run : ℕ → StoryItem → List (String × Status) → Result E StoryRunResult) (budget : BuildBudget)
    (max_story_attempts : ℕ) (items : List StoryItem)
    → Option (Result E (List StoryRunResult))
run_story_plan_until_done key_error run budget max_story_attempts items =
    until_done key_error run budget (max 1 max_story_attempts) items
