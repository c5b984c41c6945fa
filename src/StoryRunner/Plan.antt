-- ===== src/StoryRunner/Plan.antt =====
-- One pass over a plan (`run_story_plan` of src/cobol_modernizer/codegen/story_runner.py). The run
-- of a story, which builds its context pack first, is an argument: it is given the number of the
-- pass and the summaries of the earlier waves, and it may raise. The stories of a wave run
-- concurrently in the code; here they are asked in their order, and the first that raises is the
-- one whose exception `asyncio.gather` gives on.
pub mod Returns
use cobol_java_migrator_v.Prelude.{
  ℕ, ◌+◌, String, Bool, Option, none, some, List, [], ◌∷◌, ◌++◌, map, Result, ok, err, ◌>>=◌, ◌>>◌,
  nat_eq, string_eq, pair_eq, option_eq,
}
use mathlib.Core.Option
use cobol_java_migrator_v.Prelude.Dict.{Dict, get, put}
use cobol_java_migrator_v.Prelude.Int.{ℤ}
use cobol_java_migrator_v.Codegen.Budget.{Status}
use cobol_java_migrator_v.Codegen.StoryPlan.{StoryItem}
use cobol_java_migrator_v.StoryRunner.{dependency_waves}

-- StoryTestStatus of test_runner.py.
pub data TestStatus : Type 0 where
  tests_ok : TestStatus
  tests_failed : TestStatus
  no_tests_run : TestStatus
  compile_failed : TestStatus
  toolchain_unavailable : TestStatus
  infra_error : TestStatus

-- Without the telemetry and the texts of the record.
pub record StoryRunResult : Type 0 where
  pub story_id : String
  pub status : Status
  pub test_result : Option TestStatus
  pub attempts : ℕ
  pub ac_covered : List String
  pub ac_missing : List String
  pub changed_files : List String
  pub token_usage : Dict String ℤ
  pub skipped : Bool

abbrev pub result_ids : List StoryRunResult → List String
result_ids = map (λ o. o.story_id)

-- by_id[item.story_id] = out, for the items of a wave and their results.
unfoldable pub put_results :
    List StoryItem → List StoryRunResult → Dict String StoryRunResult → Dict String StoryRunResult
put_results [] outs by_id = by_id
put_results (it ∷ its) [] by_id = by_id
put_results (it ∷ its) (o ∷ outs) by_id = put_results its outs (put it.story_id o by_id)

module _ {E : Type 0} (key_error : String → E) where
  -- d[k], which raises KeyError.
  unfoldable pub look_up {ℓ} : {V : Type ℓ} → String → Dict String V → Result E V
  look_up k d = elim (get k d) [ none ↦ err (key_error k) | some v ↦ ok v ]

  -- [d[k] for k in ks]
  unfoldable pub look_up_all {ℓ} : {V : Type ℓ} → List String → Dict String V → Result E (List V)
  look_up_all [] d = ok []
  look_up_all (k ∷ ks) d = look_up k d >>= λ v. look_up_all ks d >>= λ vs. ok (v ∷ vs)

  module _ (run : ℕ → StoryItem → List (String × Status) → Result E StoryRunResult) (n : ℕ) where
    -- asyncio.gather of a wave; every story of it sees the same summaries.
    unfoldable pub gather : List (String × Status) → List StoryItem → Result E (List StoryRunResult)
    gather prior [] = ok []
    gather prior (it ∷ its) = run n it prior >>= λ out. gather prior its >>= λ outs. ok (out ∷ outs)

    -- The summary line of a story is its id and its status.
    unfoldable pub run_waves :
        List (List StoryItem)
        → Dict String StoryRunResult
        → List (String × Status)
        → Result E (Dict String StoryRunResult)
    run_waves [] by_id summaries = ok by_id
    run_waves (wave ∷ waves) by_id summaries = gather summaries wave >>= λ outs.
        let by_id = put_results wave outs by_id in
        look_up_all (map (λ it. it.story_id) wave) by_id >>= λ done.
        run_waves waves by_id (summaries ++ map (λ o. (o.story_id, o.status)) done)

    unfoldable pub run_story_plan : List StoryItem → Option (Result E (List StoryRunResult))
    run_story_plan run_items =
        Option.map
          (λ waves. run_waves waves [] [] >>= λ by_id.
            look_up_all (map (λ it. it.story_id) run_items) by_id)
          (dependency_waves run_items)
