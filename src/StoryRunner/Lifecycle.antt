-- ===== src/StoryRunner/Lifecycle.antt =====
-- One story (`run_story` of src/cobol_modernizer/codegen/story_runner.py): tests, baseline run,
-- implementation, repairs, gate. The texts of rationales are left out, and so is the `persist` flag,
-- which is on. The artifact of statuses holds the status alone, so that the running phases of a
-- story write the same entry.
mod Phases
mod Outcome
mod Fallback
use cobol_java_migrator_v.Prelude.{
  ℕ, zero, suc, ◌+◌, String, Bool, true, false, not, ◌&&◌, Option, none, some, List, [], ◌++◌, map,
  if◌then◌else◌, Result, ok, err, ◌>>=◌, ◌>>◌, nat_eq, string_eq, pair_eq, option_eq, is_empty,
}
use cobol_java_migrator_v.Prelude.Dict.{Dict, put}
use cobol_java_migrator_v.Prelude.Int.{ℤ, pos_part}
use cobol_java_migrator_v.Codegen.Budget.{
  Status, running, passed, failed, skipped, decide, exceeded, PriorRecord,
}
use cobol_java_migrator_v.Codegen.RepairLoop.{GeneratedFile}
use cobol_java_migrator_v.Codegen.StoryPlan.{StoryItem}
use cobol_java_migrator_v.Codegen.StoryQuality.{evaluate_story_quality}
use cobol_java_migrator_v.StoryRunner.Paths.{write_files, enforce_patch_scope}
use cobol_java_migrator_v.StoryRunner.Plan.{StoryRunResult}
use cobol_java_migrator_v.StoryRunner.Environment.{
  Disk, StoryEnv, Run, ◌>>>◌, pure_result, lift_path, is_repairable, cites_lineage, decide_status,
  missing_of, deterministic_story_test, deterministic_impl_patch, Attempt, RunState,
}

module _ {E : Type 0} (env : StoryEnv E) (item : StoryItem) where
  pub write : List GeneratedFile → Run E (List String)
  write files disk =
      let r = write_files env.resolve env.root files disk in (lift_path env.path_error r.0, r.1)

  -- A patch of an agent, behind its scope.
  pub scoped : List String → Result E (List GeneratedFile) → Result E (List GeneratedFile)
  scoped allowed patch = patch >>= λ files.
      lift_path env.path_error (enforce_patch_scope files allowed) >>= λ u. ok files

  abbrev pub baseline : List GeneratedFile
  baseline = deterministic_story_test item env.test_content env.test_paths

  pub tests_patch : Result E (List GeneratedFile)
  tests_patch =
      if env.llm_tests
      then elim (scoped env.test_paths env.gen_tests) [
        | ok files ↦ ok files
        | err e ↦ if not (is_empty baseline) && env.test_fallback then ok [] else err e
      ]
      else ok []

  pub tests_phase : Run E (List GeneratedFile)
  tests_phase = pure_result (env.enter "tests" 0) >>> λ entered. write baseline >>> λ written.
      pure_result tests_patch >>> λ files.
      write (baseline ++ files) >>> λ all_written. pure_result (ok (baseline ++ files))

  pub allowed_impl_paths : List GeneratedFile → List String
  allowed_impl_paths existing =
      if is_empty env.package_lines then [] else map (λ f. f.path) existing

  -- The first implementation, or the deterministic one in its place.
  pub first_patch : List GeneratedFile → List String → Result E (List GeneratedFile)
  first_patch existing allowed =
      let fallback = scoped allowed (ok (deterministic_impl_patch env item existing allowed)) in
      if env.llm_impl
      then elim (scoped allowed (env.gen_impl 0)) [
        | ok files ↦ ok files
        | err e ↦ if env.impl_fallback then fallback else err e
      ]
      else fallback

  pub implement_from :
      (List GeneratedFile → List String → Result E (List GeneratedFile)) → ℕ → Run E Attempt
  implement_from patch attempts disk =
      let existing = env.existing_java disk in
      (pure_result (patch existing (allowed_impl_paths existing)) >>> λ files.
      write files >>> λ changed. pure_result (env.enter "green-test" attempts) >>> λ testing.
      env.run_tests attempts >>> λ result.
      pure_result (
        ok
          (record { impl_files = files; changed = changed; attempts = attempts; result = result })))
        disk

  pub implement :
      (List GeneratedFile → List String → Result E (List GeneratedFile)) → ℕ → Run E Attempt
  implement patch attempts =
      pure_result (env.enter "implementation" attempts) >>> λ entered. implement_from patch attempts

  -- The repair loop: `left` is what repair_max_attempts + 1 is above the attempts made.
  pub repair : ℕ → Attempt → Run E Attempt
  repair zero a = pure_result (ok a)
  repair (suc left) a =
      let used = env.telemetry a.attempts in
      let again =
        implement (λ existing allowed. scoped allowed (env.gen_impl a.attempts)) (suc a.attempts) in
      if is_repairable a.result && env.llm_impl && not (exceeded env.budget used.0 used.1)
      then again >>> (λ b. repair left b)
      else pure_result (ok a)

  -- The try block: tests, red baseline, implementation, repairs.
  pub build_story : Run E (List GeneratedFile × Attempt)
  build_story = tests_phase >>> λ test_files. pure_result (env.enter "red-test" 0) >>> λ entered.
      env.run_tests 0 >>> λ red. implement first_patch 1 >>> λ a.
      repair (pos_part env.repair_max_attempts) a >>> λ last. pure_result (ok (test_files, last))

  -- The gate, from the acceptance criteria that the scan finds covered.
  pub judge : List GeneratedFile → Attempt → List String → StoryRunResult
  judge test_files a covered =
      let missing = missing_of item.acceptance_criteria_ids covered in
      let lineage_ok = cites_lineage env.mentions a.impl_files item in
      let gate =
        evaluate_story_quality env.package_lines a.result missing lineage_ok a.impl_files a.changed
          (env.represented (test_files ++ a.impl_files)) in
      record {
        story_id = item.story_id;
        status = decide_status a.result (is_empty missing) lineage_ok gate.passed;
        test_result = some a.result;
        attempts = a.attempts;
        ac_covered = covered;
        ac_missing = missing;
        changed_files = a.changed;
        token_usage = env.token_usage;
        skipped = false;
      }

  -- A result without a build: of a story that is skipped, or that raised.
  pub bare_result : Status → Dict String ℤ → Bool → StoryRunResult
  bare_result status usage skips = record {
    story_id = item.story_id;
    status = status;
    test_result = none;
    attempts = 0;
    ac_covered = [];
    ac_missing = [];
    changed_files = [];
    token_usage = usage;
    skipped = skips;
  }

  -- _persist and the ledger call after it: an exception leaves the status as it then is.
  pub persisted :
      StoryRunResult
      → RunState
      → RunState
      → Result E (Unit {0})
      → Result E (Unit {0})
      → Result E StoryRunResult × RunState
  persisted out before after (err e) later = (err e, before)
  persisted out before after (ok stored) (err e) = (err e, after)
  persisted out before after (ok stored) (ok recorded) = (ok out, after)

  pub persist : StoryRunResult → RunState → Result E StoryRunResult × RunState
  persist out st =
      persisted out st (record st { statuses = put item.story_id out.status st.statuses }) env.store
        env.after_store

  -- After the try block, whose exceptions end as a failed story; the scan may raise outside of it.
  pub scanned :
      List GeneratedFile
      → Attempt
      → RunState
      → Result E (List String)
      → Result E StoryRunResult × RunState
  scanned test_files a st (err e) = (err e, st)
  scanned test_files a st (ok covered) = persist (judge test_files a covered) st

  pub ended :
      Dict String Status
      → Result E (List GeneratedFile × Attempt) × Disk
      → Result E StoryRunResult × RunState
  ended started (err e, after) =
      persist (bare_result failed env.token_usage false)
        (record { disk = after; statuses = started })
  ended started (ok (test_files, a), after) =
      scanned test_files a (record { disk = after; statuses = started })
        (env.scan_refs after item.acceptance_criteria_ids)

  -- The record that the story is running, and its mark in the ledger.
  pub begun :
      RunState → Result E (Unit {0}) → Result E (Unit {0}) → Result E StoryRunResult × RunState
  begun st (err e) marked = (err e, st)
  begun st (ok recorded) (err e) =
      (err e, record st { statuses = put item.story_id running st.statuses })
  begun st (ok recorded) (ok marked) =
      ended (put item.story_id running st.statuses) (build_story st.disk)

  pub resumed : RunState → Result E (Option PriorRecord) → Result E StoryRunResult × RunState
  resumed st (err e) = (err e, st)
  resumed st (ok prior) =
      if (decide prior env.context_hash).skip
      then persist (bare_result skipped [] true) st
      else begun st env.record_running env.mark_running

  pub run_story : RunState → Result E StoryRunResult × RunState
  run_story st = resumed st env.read_prior
