-- ===== src/Codegen/StoryQuality/Checks.antt =====
-- How the checks hang together.
mod Examples
use cobol_java_migrator_v.Prelude.{
  ◌-◌, String, ◌≡◌, ◌↔◌, inl, inr, Bool, true, false, not, ◌&&◌, List, [], ◌∷◌, arith, Bool-cases,
  nat_eq, string_eq, pair_eq, option_eq, is_empty, keep_if, any, all,
}
use cobol_java_migrator_v.Codegen.RepairLoop.{GeneratedFile}
use cobol_java_migrator_v.StoryRunner.Plan.{TestStatus}
use cobol_java_migrator_v.Codegen.StoryQuality.{
  package_prefixes, has_prefix_of, is_main, package_scope_ok, package_touched, is_acceptable,
  failed_checks, passed_count, score_of, evaluate_story_quality,
}

touched_of_scope :
    (prefixes changed : List String)
    → is_empty (keep_if is_main changed) ≡ false
    → all (has_prefix_of prefixes) (keep_if is_main changed) ≡ true
    → any (λ path. is_main path && has_prefix_of prefixes path) changed ≡ true
touched_of_scope prefixes [] some_main h = absurd (ground arith)
touched_of_scope prefixes (p ∷ ps) some_main h = elim (Bool-cases (is_main p)) [
  | inl main ↦ ground (arith, main)
  | inr other ↦ ground (arith, other, touched_of_scope prefixes ps)
]

-- The check of the expected package never fails alone: changed files that respect the package
-- scope touch the expected package.
package_scope_ok-package_touched :
    (package_lines changed : List String)
    → package_scope_ok package_lines changed ≡ true
    → package_touched package_lines changed ≡ true
unfolding package_scope_ok package_touched
package_scope_ok-package_touched package_lines changed h =
    ground (arith, touched_of_scope (package_prefixes package_lines) changed)

-- The gate passes exactly where its score is full, and then nothing is missing: every acceptance
-- criterion is covered, the lineage is cited, the tests are green or could not be run, there are
-- production files, they respect the package scope, and the behaviour signals are represented.
pub evaluate_story_quality-passed :
    (package_lines : List String) (status : TestStatus) (ac_missing : List String)
    (lineage_ok : Bool) (impl_files : List GeneratedFile) (changed : List String)
    (represented : Bool)
    → let gate =
        evaluate_story_quality package_lines status ac_missing lineage_ok impl_files changed
          represented in
      ((gate.passed ≡ true) ↔ (gate.score ≡ 1000))
      × ((gate.passed ≡ true) ↔ (
          (is_empty ac_missing
            && lineage_ok
            && is_acceptable status
            && not (is_empty impl_files)
            && package_scope_ok package_lines changed
            && represented)
          ≡ true))
unfolding evaluate_story_quality score_of failed_checks passed_count
evaluate_story_quality-passed package_lines status ac_missing lineage_ok impl_files changed
      represented =
    let touched = package_scope_ok-package_touched package_lines changed in
    (ground (arith, touched), ground (arith, touched))
