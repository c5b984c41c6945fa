-- ===== src/StoryRunner/Environment.antt =====
-- What a story asks of its environment, and the parts of its run that need no more of it
-- (src/cobol_modernizer/codegen/story_runner.py). The answers of the database, of the agents, of
-- Maven, of the clock and of the settings are a record, by the number of the attempt.
use cobol_java_migrator_v.Prelude.{
  ℕ, String, Bool, true, false, not, ◌&&◌, ◌||◌, Option, List, [], ◌∷◌, ◌++◌, map, if◌then◌else◌,
  Result, ok, err, ◌==◌, nat_eq, string_eq, pair_eq, option_eq, is_empty, keep_if, any, contains,
  sorted, to_set,
}
use cobol_java_migrator_v.Prelude.Dict.{Dict}
use cobol_java_migrator_v.Prelude.Int.{ℤ}
use cobol_java_migrator_v.Codegen.Budget.{
  Status, passed, failed, generated_unverified, PriorRecord, StoryBudget,
}
use cobol_java_migrator_v.Codegen.RepairLoop.{GeneratedFile, test_file, main_file}
use cobol_java_migrator_v.Codegen.StoryPlan.{StoryItem}
use cobol_java_migrator_v.StoryRunner.Paths.{PathError, append_text}
use cobol_java_migrator_v.StoryRunner.Plan.{
  TestStatus, tests_ok, toolchain_unavailable, infra_error,
}

abbrev pub Disk : Type 0
Disk = Dict String String

-- A step that may raise and that changes the disk, also where it raises.
abbrev pub Run : Type 0 → Type 0 → Type 0
Run E A = Disk → Result E A × Disk

-- The calls of the database and of the ledger, which may raise: the prior record that is read first,
-- the record that the story is running and its mark in the ledger, the records of a phase (by its
-- name and attempt), the status artifact that is stored, and what is recorded after it. Then the
-- flags of the environment, the context pack of the story, and the answers of the agents (gen_tests,
-- gen_impl), of Maven (run_tests, which runs the generated tests and so may change any file), of the
-- scan of the written tests and of the telemetry (tokens and wall time).
pub record StoryEnv (E : Type 0) : Type 0 where
  pub read_prior : Result E (Option PriorRecord)
  pub record_running : Result E (Unit {0})
  pub mark_running : Result E (Unit {0})
  pub enter : String → ℕ → Result E (Unit {0})
  pub store : Result E (Unit {0})
  pub after_store : Result E (Unit {0})
  pub context_hash : String
  pub llm_tests : Bool
  pub llm_impl : Bool
  pub test_fallback : Bool
  pub impl_fallback : Bool
  pub package_lines : List String
  pub test_paths : List String
  pub test_content : String
  pub trace : String
  pub has_trace : String → Bool
  pub trace_file : GeneratedFile
  pub existing_java : Disk → List GeneratedFile
  pub gen_tests : Result E (List GeneratedFile)
  pub gen_impl : ℕ → Result E (List GeneratedFile)
  pub run_tests : ℕ → Run E TestStatus
  pub telemetry : ℕ → ℤ × ℤ
  pub token_usage : Dict String ℤ
  pub repair_max_attempts : ℤ
  pub budget : StoryBudget
  pub scan_refs : Disk → List String → Result E (List String)
  pub mentions : List GeneratedFile → String → Bool
  pub represented : List GeneratedFile → Bool
  pub resolve : String → String
  pub root : String
  pub path_error : PathError → E

infixl 5 ◌>>>◌
unfoldable pub ◌>>>◌ : {E A B : Type 0} → Run E A → (A → Run E B) → Run E B
(m >>> f) disk = let r = m disk in elim r.0 [ err e ↦ (err e, r.1) | ok a ↦ f a r.1 ]

unfoldable pub pure_result : {E A : Type 0} → Result E A → Run E A
pure_result r disk = (r, disk)

unfoldable pub lift_path : {E A : Type 0} → (PathError → E) → Result PathError A → Result E A
lift_path f (ok a) = ok a
lift_path f (err e) = err (f e)

-- _NON_REPAIRABLE
unfoldable pub is_repairable : TestStatus → Bool
is_repairable tests_ok = false
is_repairable toolchain_unavailable = false
is_repairable infra_error = false
is_repairable _ = true

unfoldable pub is_main_file : GeneratedFile → Bool
is_main_file f = elim f.kind [ test_file ↦ false | main_file ↦ true ]

-- _cites_lineage; `mentions` asks whether a text stands in the files.
unfoldable pub cites_lineage :
    (List GeneratedFile → String → Bool) → List GeneratedFile → StoryItem → Bool
cites_lineage mentions files item =
    let mains = keep_if is_main_file files in
    let refs = keep_if (λ r. not (r == "")) item.cobol_refs in
    if is_empty mains || (not (item.story_id == "") && not (mentions mains item.story_id))
    then false
    else if is_empty refs
    then true
    else any (mentions mains) refs

unfoldable pub decide_status : TestStatus → Bool → Bool → Bool → Status
decide_status result ac_ok lineage_ok gate_passed =
    if not (ac_ok && lineage_ok) || not gate_passed then failed else elim result [
      | tests_ok ↦ passed
      | toolchain_unavailable ↦ generated_unverified
      | _ ↦ failed
    ]

-- sorted(set(xs) - set(ys))
unfoldable pub missing_of : List String → List String → List String
missing_of xs ys = sorted (keep_if (λ x. not (contains x ys)) (to_set xs))

-- The deterministic test file and the deterministic implementation.
unfoldable pub deterministic_story_test : StoryItem → String → List String → List GeneratedFile
deterministic_story_test item content [] = []
deterministic_story_test item content (path ∷ paths) =
    record {
      path = path;
      kind = test_file;
      content = content;
      evidence = item.story_id ∷ (item.acceptance_criteria_ids ++ item.cobol_refs);
    }
    ∷ []

unfoldable pub content_at : String → List GeneratedFile → String
content_at path [] = ""
content_at path (f ∷ fs) =
    let rest = content_at path fs in
    if contains path (map (λ g. g.path) fs)
    then rest
    else if f.path == path
    then f.content
    else rest

unfoldable pub traced_file :
    {E : Type 0} → StoryEnv E → StoryItem → List GeneratedFile → String → GeneratedFile
traced_file env item existing target =
    let content = content_at target existing in
    record {
      path = target;
      kind = main_file;
      content = if env.has_trace content then content else append_text env.trace content;
      evidence = item.story_id ∷ (item.acceptance_criteria_ids ++ item.cobol_refs);
    }

unfoldable pub deterministic_impl_patch :
    {E : Type 0} → StoryEnv E → StoryItem → List GeneratedFile → List String → List GeneratedFile
deterministic_impl_patch env item existing [] = env.trace_file ∷ []
deterministic_impl_patch env item existing (target ∷ allowed) =
    traced_file env item existing target ∷ []

-- What the last implementation wrote and what its test run gave.
pub record Attempt : Type 0 where
  pub impl_files : List GeneratedFile
  pub changed : List String
  pub attempts : ℕ
  pub result : TestStatus

pub record RunState : Type 0 where
  pub disk : Disk
  pub statuses : Dict String Status
