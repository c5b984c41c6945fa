-- ===== src/Codegen/StoryPlan/Complete/Examples.antt =====
-- Concrete inputs for the theorems of Complete.
use cobol_java_migrator_v.Codegen.StoryPlan.{
  StoryItem, UserStory, Service, story_ids, build_story_codegen_plan,
}
use cobol_java_migrator_v.Codegen.StoryPlan.Complete.{build_story_codegen_plan-count}
use cobol_java_migrator_v.Prelude.{String, ◌≡◌, some, List, [], ◌∷◌, map, count}
use cobol_java_migrator_v.Prelude.{string_eq}

abbrev story : String → List String → UserStory
story id deps = record {
  id = id;
  context = "billing";
  acceptance_criteria = "AC-1" ∷ [];
  evidence_refs = "CBACT04C" ∷ [];
  depends_on = deps;
}

-- Two stories that wait for each other.
abbrev stories : List UserStory
stories = story "S1" ("S2" ∷ []) ∷ story "S2" ("S1" ∷ []) ∷ []

abbrev service : Service
service = record {
  name = "billing-service";
  bounded_context = "billing";
  story_ids = "S1" ∷ [];
  evidence_refs = [];
}

build_story_codegen_plan-count_example :
    (items : List StoryItem) × (build_story_codegen_plan stories
        (record { contexts = []; designs = [] })
        (service ∷ [])
      ≡ some items)
    × ((s : String) → count s (map (λ it. it.story_id) items) ≡ count s (story_ids stories))
build_story_codegen_plan-count_example =
    build_story_codegen_plan-count stories (record { contexts = []; designs = [] }) (service ∷ [])
