-- ===== src/StoryRunner/Acyclic/Examples.antt =====
-- Concrete inputs for the theorems of Acyclic.
use cobol_java_migrator_v.Codegen.StoryPlan.{StoryItem}
use cobol_java_migrator_v.StoryRunner.{ids_of, dependency_waves}
use cobol_java_migrator_v.StoryRunner.Order.{InOrder}
use cobol_java_migrator_v.StoryRunner.Acyclic.{dependency_waves-InOrder}
use cobol_java_migrator_v.Prelude.{ℕ, String, ◌≡◌, some, List, [], ◌∷◌, arith, if◌then◌else◌, ◌==◌}
use cobol_java_migrator_v.Prelude.{string_eq}
use cobol_java_migrator_v.Codegen.Budget.{pending}

abbrev item : String → List String → StoryItem
item id deps = record {
  story_id = id;
  bounded_context = "billing";
  service_name = "billing-service";
  acceptance_criteria_ids = "AC-1" ∷ [];
  cobol_refs = "CBACT04C" ∷ [];
  depends_on = deps;
  status = pending;
}

abbrev items : List StoryItem
items = item "S2" ("S1" ∷ []) ∷ item "S1" [] ∷ []

abbrev rank : String → ℕ
rank s = if s == "S2" then 1 else 0

dependency_waves-InOrder_example :
    (ws : List (List StoryItem)) × (dependency_waves items ≡ some ws) × InOrder (ids_of items) [] ws
dependency_waves-InOrder_example =
    dependency_waves-InOrder rank items ((λ known. omega arith, tt), (tt, tt))
