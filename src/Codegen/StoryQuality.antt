-- ===== src/Codegen/StoryQuality.antt =====
-- The checks of a generated story (src/cobol_modernizer/codegen/story_quality.py). Whether the
-- behaviour signals of the story stand in its files is an argument, and so are the warnings, which
-- decide nothing. The score is in thousandths.
pub mod Checks
use Prim.Native.Char.{code}
use Prim.Native.String as Text
use cobol_java_migrator_v.Prelude.{
  ℕ, suc, ◌+◌, ◌*◌, ◌/◌, max, String, Bool, true, false, not, ◌&&◌, List, [], ◌∷◌, map, eqb,
  if◌then◌else◌, nat_eq, string_eq, pair_eq, option_eq, length, is_empty, keep_if, any, all,
}
use cobol_java_migrator_v.Codegen.RepairLoop.{GeneratedFile}
use cobol_java_migrator_v.StoryRunner.Paths.{append_text, is_char}
use cobol_java_migrator_v.StoryRunner.Plan.{TestStatus, tests_ok, toolchain_unavailable}

pub data Check : Type 0 where
  acceptance_criteria_covered : Check
  lineage_cited : Check
  test_result_acceptable : Check
  production_files_generated : Check
  package_scope_respected : Check
  expected_package_touched : Check
  behavior_signals_represented : Check

pub record QualityGate : Type 0 where
  pub passed : Bool
  pub score : ℕ
  pub checks : List (Check × Bool)
  pub failures : List Check

unfoldable pub starts_with : String → String → Bool
starts_with s Text.[] = true
starts_with Text.[] (Text.◌∷◌ c prefix) = false
starts_with (Text.◌∷◌ d s) (Text.◌∷◌ c prefix) = eqb (code d) (code c) && starts_with s prefix

-- pkg.replace(".", "/")
unfoldable pub slashed : String → String
slashed Text.[] = Text.[]
slashed (Text.◌∷◌ c s) = Text.◌∷◌ (if is_char 46 c then "/" else c) (slashed s)

unfoldable pub package_prefixes : List String → List String
package_prefixes package_lines =
    map (λ pkg. append_text "src/main/java/" (slashed pkg)) package_lines

abbrev pub has_prefix_of : List String → String → Bool
has_prefix_of prefixes path = any (starts_with path) prefixes

abbrev pub is_main : String → Bool
is_main path = starts_with path "src/main/java/"

unfoldable pub package_scope_ok : List String → List String → Bool
package_scope_ok package_lines changed_files =
    let prefixes = package_prefixes package_lines in
    let main_files = keep_if is_main changed_files in
    if is_empty prefixes
    then true
    else not (is_empty main_files) && all (has_prefix_of prefixes) main_files

unfoldable pub package_touched : List String → List String → Bool
package_touched package_lines changed_files =
    let prefixes = package_prefixes package_lines in
    if is_empty prefixes
    then true
    else any (λ path. is_main path && has_prefix_of prefixes path) changed_files

unfoldable pub is_acceptable : TestStatus → Bool
is_acceptable tests_ok = true
is_acceptable toolchain_unavailable = true
is_acceptable _ = false

unfoldable pub failed_checks : List (Check × Bool) → List Check
failed_checks [] = []
failed_checks ((c, passes) ∷ cs) = let rest = failed_checks cs in if passes then rest else c ∷ rest

unfoldable pub passed_count : List (Check × Bool) → ℕ
passed_count [] = 0
passed_count ((c, passes) ∷ cs) = if passes then suc (passed_count cs) else passed_count cs

-- round(x / n, 3), which is no tie for the seven checks.
unfoldable pub score_of : List (Check × Bool) → ℕ
score_of checks = let n = max 1 (length checks) in (2 * 1000 * passed_count checks + n) / (2 * n)

unfoldable pub evaluate_story_quality :
    List String
    → TestStatus
    → List String
    → Bool
    → List GeneratedFile
    → List String
    → Bool
    → QualityGate
evaluate_story_quality package_lines status ac_missing lineage_ok impl_files changed represented =
    let checks : List (Check × Bool) =
      (acceptance_criteria_covered, is_empty ac_missing)
      ∷ (lineage_cited, lineage_ok)
      ∷ (test_result_acceptable, is_acceptable status)
      ∷ (production_files_generated, not (is_empty impl_files))
      ∷ (package_scope_respected, package_scope_ok package_lines changed)
      ∷ (expected_package_touched, package_touched package_lines changed)
      ∷ (behavior_signals_represented, represented)
      ∷ [] in
    let failures = failed_checks checks in
    record {
      passed = is_empty failures;
      score = score_of checks;
      checks = checks;
      failures = failures;
    }
