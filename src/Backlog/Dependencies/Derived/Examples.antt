-- ===== src/Backlog/Dependencies/Derived/Examples.antt =====
-- Concrete inputs for the theorems of Derived.
use cobol_java_migrator_v.Backlog.Dependencies.{story_programs, derive_story}
use cobol_java_migrator_v.Backlog.{BacklogStory}
use cobol_java_migrator_v.Backlog.Dependencies.Derived.{derive_story_dependencies_self}
use cobol_java_migrator_v.Prelude.{String, ◌≡◌, true, List, [], ◌∷◌, contains}
use cobol_java_migrator_v.Prelude.Dict.{keys}
use cobol_java_migrator_v.Prelude.{string_eq}
use cobol_java_migrator_v.Planner.Stories.{SeamCandidate, by_program}

abbrev story : String → String → BacklogStory
story id program = record {
  id = id;
  epic_id = "E1";
  brd_requirement_ids = [];
  evidence_refs = program ∷ [];
  seam_refs = [];
  acceptance_criteria = [];
  depends_on = [];
}

abbrev stories : List BacklogStory
stories = story "S1" "POST" ∷ story "S2" "BILL" ∷ []

abbrev candidates : List SeamCandidate
candidates =
    record { program = "POST"; weighted = 1; reads = "ACCT" ∷ []; writes = "ACCT" ∷ [] }
    ∷ record { program = "BILL"; weighted = 1; reads = "ACCT" ∷ []; writes = [] }
    ∷ []

derive_story_dependencies_self_example :
    let programs = story_programs (keys (by_program candidates [])) stories [] in
    let t = derive_story programs candidates (story "S1" "POST") in
    (contains "S1" t.depends_on ≡ contains {A = String} "S1" [])
    × ((d : String) → contains {A = String} d [] ≡ true → contains d t.depends_on ≡ true)
derive_story_dependencies_self_example =
    derive_story_dependencies_self candidates stories (story "S1" "POST")
