-- ===== src/Codegen/StoryQuality/Checks/Examples.antt =====
-- Concrete inputs for the theorems of Checks.
use cobol_java_migrator_v.Codegen.StoryQuality.{
  package_scope_ok, is_acceptable, evaluate_story_quality,
}
use cobol_java_migrator_v.StoryRunner.Plan.{tests_ok}
use cobol_java_migrator_v.Codegen.StoryQuality.Checks.{evaluate_story_quality-passed}
use cobol_java_migrator_v.Prelude.{String, ◌≡◌, ◌↔◌, true, not, ◌&&◌, [], ◌∷◌, is_empty}
use cobol_java_migrator_v.Codegen.RepairLoop.{GeneratedFile}

evaluate_story_quality-passed_example :
    let gate = evaluate_story_quality [] tests_ok ("AC-1" ∷ []) true [] ("src/S.java" ∷ []) true in
    ((gate.passed ≡ true) ↔ (gate.score ≡ 1000))
    × ((gate.passed ≡ true) ↔ (
        (is_empty {A = String} ("AC-1" ∷ [])
          && true
          && is_acceptable tests_ok
          && not (is_empty {A = GeneratedFile} [])
          && package_scope_ok [] ("src/S.java" ∷ [])
          && true)
        ≡ true))
evaluate_story_quality-passed_example =
    evaluate_story_quality-passed [] tests_ok ("AC-1" ∷ []) true [] ("src/S.java" ∷ []) true
