-- ===== src/StoryRunner/Lifecycle/Outcome.antt =====
-- What a story ends with.
mod Examples
use cobol_java_migrator_v.Prelude.{
  ℕ, suc, ◌+◌, ◌-◌, ◌≤◌, String, ◌≡◌, refl, inl, inr, Bool, true, false, Option, some, List, [],
  ◌⊎◌, ◌∙◌, ap, Result, err, contains, arith, Bool-cases, ok, Result-cases, nat_eq, string_eq,
  pair_eq, option_eq, is_empty, All,
}
use cobol_java_migrator_v.Prelude.Dict.{Dict, get, put, get-put_self}
use cobol_java_migrator_v.Codegen.Budget.{
  Status, running, passed, failed, skipped, generated_unverified, decide, PriorRecord,
}
use cobol_java_migrator_v.Codegen.RepairLoop.{GeneratedFile}
use cobol_java_migrator_v.Codegen.StoryPlan.{StoryItem}
use cobol_java_migrator_v.Codegen.StoryQuality.{package_scope_ok}
use cobol_java_migrator_v.StoryRunner.Paths.{is_relative_to}
use cobol_java_migrator_v.StoryRunner.Plan.{TestStatus, tests_ok, StoryRunResult}
use cobol_java_migrator_v.StoryRunner.Lifecycle.{
  build_story, judge, bare_result, persisted, persist, scanned, ended, begun, resumed, run_story,
}
use cobol_java_migrator_v.StoryRunner.Environment.{Disk, StoryEnv, Attempt, RunState, decide_status}
use cobol_java_migrator_v.StoryRunner.Lifecycle.Phases.{Keeps, build_story-Keeps}

-- The statuses that a run gives.
pub is_outcome : Status → Bool
is_outcome passed = true
is_outcome generated_unverified = true
is_outcome skipped = true
is_outcome failed = true
is_outcome _ = false

decide_status-is_outcome :
    (result : TestStatus) (ac_ok lineage_ok gate_passed : Bool)
    → is_outcome (decide_status result ac_ok lineage_ok gate_passed) ≡ true
unfolding decide_status is_outcome
decide_status-is_outcome result ac_ok lineage_ok gate_passed = ground arith

-- Where an exception that leaves a run comes from: a call of the database or of the ledger outside
-- of the try block, or the walk of the scan.
pub Outside : {E : Type 0} → StoryEnv E → StoryItem → E → Type 0
Outside env item e =
    (env.read_prior ≡ err e)
    ⊎ (env.record_running ≡ err e)
    ⊎ (env.mark_running ≡ err e)
    ⊎ (env.store ≡ err e)
    ⊎ (env.after_store ≡ err e)
    ⊎ ((disk : Disk) × (env.scan_refs disk item.acceptance_criteria_ids ≡ err e))

-- A run that returns has stored the status of its result; one that raises has met one of those.
pub Settled : {E : Type 0} → StoryEnv E → StoryItem → Result E StoryRunResult × RunState → Type 0
Settled env item (ok out, after) =
    (out.story_id ≡ item.story_id)
    × (is_outcome out.status ≡ true)
    × (get item.story_id after.statuses ≡ some out.status)
Settled env item (err e, after) = Outside env item e

module _ {E : Type 0} (env : StoryEnv E) (item : StoryItem) where
  persisted-Settled :
      (out : StoryRunResult) (st : RunState) (stored recorded : Result E (Unit {0}))
      → out.story_id ≡ item.story_id
      → is_outcome out.status ≡ true
      → env.store ≡ stored
      → env.after_store ≡ recorded
      → Settled env item (
          persisted env item out st
            (record st { statuses = put item.story_id out.status st.statuses })
            stored
            recorded)
  unfolding persisted Settled Outside
  persisted-Settled out st (err e) recorded same outcome s r = inr (inr (inr (inl s)))
  persisted-Settled out st (ok done) (err e) same outcome s r = inr (inr (inr (inr (inl r))))
  persisted-Settled out st (ok done) (ok kept) same outcome s r =
      (same, outcome, get-put_self item.story_id out.status st.statuses)

  persist-Settled :
      (out : StoryRunResult) (st : RunState)
      → out.story_id ≡ item.story_id
      → is_outcome out.status ≡ true
      → Settled env item (persist env item out st)
  unfolding persist
  persist-Settled out st same outcome =
      persisted-Settled out st env.store env.after_store same outcome refl refl

  scanned-Settled :
      (test_files : List GeneratedFile) (a : Attempt) (st : RunState) (r : Result E (List String))
      → env.scan_refs st.disk item.acceptance_criteria_ids ≡ r
      → Settled env item (scanned env item test_files a st r)
  unfolding scanned judge Settled Outside
  scanned-Settled test_files a st (err e) s = inr (inr (inr (inr (inr (st.disk, s)))))
  scanned-Settled test_files a st (ok covered) s =
      persist-Settled (judge env item test_files a covered) st refl
        (decide_status-is_outcome _ _ _ _)

  ended-Settled :
      (started : Dict String Status) (r : Result E (List GeneratedFile × Attempt) × Disk)
      → Settled env item (ended env item started r)
  unfolding ended bare_result is_outcome
  ended-Settled started (err e, after) = persist-Settled _ _ refl refl
  ended-Settled started (ok (test_files, a), after) =
      scanned-Settled test_files a (record { disk = after; statuses = started }) _ refl

  begun-Settled :
      (st : RunState) (recorded marked : Result E (Unit {0}))
      → env.record_running ≡ recorded
      → env.mark_running ≡ marked
      → Settled env item (begun env item st recorded marked)
  unfolding begun Settled Outside
  begun-Settled st (err e) marked r m = inr (inl r)
  begun-Settled st (ok done) (err e) r m = inr (inr (inl m))
  begun-Settled st (ok done) (ok kept) r m = ended-Settled _ (build_story env item st.disk)

  resumed-Settled :
      (st : RunState) (r : Result E (Option PriorRecord))
      → env.read_prior ≡ r
      → Settled env item (resumed env item st r)
  unfolding resumed bare_result is_outcome Settled Outside
  resumed-Settled st (err e) r = inl r
  resumed-Settled st (ok prior) r = elim (Bool-cases (decide prior env.context_hash).skip) [
    | inl skips ↦
        rw (skips, resumed) (persist-Settled (bare_result env item skipped [] true) st refl refl)
    | inr runs ↦ rw (runs, resumed) (begun-Settled st env.record_running env.mark_running refl refl)
  ]

  -- A run of a story that returns gives a result of that story, and the artifact of statuses then
  -- holds the result's status, which is passed, generated-unverified, skipped or failed. No exception
  -- of the agents, of Maven, of a refused path or of a phase's record leaves the run: one that does is
  -- of a call of the database or ledger outside of the try block, or of the scan of the tests.
  pub run_story-Settled : (st : RunState) → Settled env item (run_story env item st)
  unfolding run_story
  run_story-Settled st = resumed-Settled st env.read_prior refl

  -- The disk at the end of a run, whatever is persisted.
  persisted-disk :
      (out : StoryRunResult) (before after : RunState) (s r : Result E (Unit {0}))
      → before.disk ≡ after.disk
      → (persisted env item out before after s r).1.disk ≡ after.disk
  unfolding persisted
  persisted-disk out before after (err e) r same = same
  persisted-disk out before after (ok done) (err e) same = refl
  persisted-disk out before after (ok done) (ok kept) same = refl

  persist-disk : (out : StoryRunResult) (st : RunState) → (persist env item out st).1.disk ≡ st.disk
  unfolding persist
  persist-disk out st = persisted-disk out st _ env.store env.after_store refl

  scanned-disk :
      (test_files : List GeneratedFile) (a : Attempt) (st : RunState) (r : Result E (List String))
      → (scanned env item test_files a st r).1.disk ≡ st.disk
  unfolding scanned
  scanned-disk test_files a st (err e) = refl
  scanned-disk test_files a st (ok covered) = persist-disk _ st

  ended-disk :
      (started : Dict String Status) (r : Result E (List GeneratedFile × Attempt) × Disk)
      → (ended env item started r).1.disk ≡ r.1
  unfolding ended
  ended-disk started (err e, after) = persist-disk _ _
  ended-disk started (ok (test_files, a), after) = scanned-disk test_files a _ _

  module _ (dest : String) (out : is_relative_to dest env.root ≡ false)
      (maven : (n : ℕ) → Keeps dest (env.run_tests n)) where
    begun-root :
        (st : RunState) (recorded marked : Result E (Unit {0}))
        → get dest (begun env item st recorded marked).1.disk ≡ get dest st.disk
    unfolding begun Keeps
    begun-root st (err e) marked = refl
    begun-root st (ok done) (err e) = refl
    begun-root st (ok done) (ok kept) =
        ap (get dest) (ended-disk _ (build_story env item st.disk))
        ∙ build_story-Keeps env item dest out maven st.disk

    resumed-root :
        (st : RunState) (r : Result E (Option PriorRecord))
        → get dest (resumed env item st r).1.disk ≡ get dest st.disk
    unfolding resumed
    resumed-root st (err e) = refl
    resumed-root st (ok prior) = elim (Bool-cases (decide prior env.context_hash).skip) [
      | inl skips ↦ rw (skips, resumed) (ap (get dest) (persist-disk _ st))
      | inr runs ↦ rw (runs, resumed) (begun-root st env.record_running env.mark_running)
    ]

  -- A file outside of the module's root that the test runs leave alone is not changed by the run of
  -- a story, whatever the agents generate and also where the story fails or the run raises.
  pub run_story-root :
      (dest : String)
      → is_relative_to dest env.root ≡ false
      → ((n : ℕ) → Keeps dest (env.run_tests n))
      → (st : RunState) → get dest (run_story env item st).1.disk ≡ get dest st.disk
  unfolding run_story
  run_story-root dest out maven st = resumed-root dest out maven st env.read_prior

  -- What a passed result says.
  abbrev pub IsGreen : StoryRunResult → Type 0
  IsGreen out =
      (out.test_result ≡ some tests_ok)
      × ((disk : Disk) × (env.scan_refs disk item.acceptance_criteria_ids ≡ ok out.ac_covered))
      × All (λ ac. contains ac out.ac_covered ≡ true) item.acceptance_criteria_ids
      × (package_scope_ok env.package_lines out.changed_files ≡ true)

  -- A run returns where the calls outside of the try block do.
  abbrev pub IsHealthy : Type 0
  IsHealthy = (e : E) → Outside env item e → ⊥
