-- ===== src/StoryRunner/Waves/Examples.antt =====
-- Concrete inputs for the theorems of Waves.
use cobol_java_migrator_v.Codegen.StoryPlan.{StoryItem}
use cobol_java_migrator_v.StoryRunner.{next_wave, without, waves_from, dependency_waves}
use cobol_java_migrator_v.StoryRunner.Waves.{all_of, dependency_waves-perm}
use cobol_java_migrator_v.Prelude.{String, ◌≡◌, refl, some, List, [], ◌∷◌}
use mathlib.Core.List.{Perm}
use cobol_java_migrator_v.Codegen.Budget.{pending}

abbrev item : String → List String → StoryItem
item id deps = record {
  story_id = id;
  bounded_context = "billing";
  service_name = "billing-service";
  acceptance_criteria_ids = "AC-1" ∷ [];
  cobol_refs = "CBACT04C" ∷ [];
  depends_on = deps;
  status = pending;
}

abbrev items : List StoryItem
items = item "S2" ("S1" ∷ []) ∷ item "S1" [] ∷ []

dependency_waves-perm_example :
    (ws : List (List StoryItem)) × (dependency_waves items ≡ some ws) × Perm (all_of ws) items
dependency_waves-perm_example = dependency_waves-perm items (refl, (refl, tt))

two_waves : dependency_waves items ≡ some ((item "S1" [] ∷ []) ∷ (item "S2" ("S1" ∷ []) ∷ []) ∷ [])
unfolding dependency_waves waves_from next_wave without
two_waves = refl
