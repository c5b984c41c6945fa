-- ===== src/Planner/Quality/Waves/Examples.antt =====
-- Concrete inputs for the theorems of Waves.
use cobol_java_migrator_v.Planner.Stories.{Story, SeamCandidate}
use cobol_java_migrator_v.Planner.Quality.{
  union, difference, story_ids, ids_where, dependency_ids, seam_programs, measure_plan, plan_passed,
  assess_plan_quality, PlanResult, plan_verdict,
}
use cobol_java_migrator_v.Planner.Dag.{
  topo_order, topo_loop, check_order, degrees_of, add_stories, add_deps, add_edge, blank, release,
  free, delivery_waves, wave_loop, release_all, check_waves, seen,
}
use cobol_java_migrator_v.Planner.Dag.Graph.{edges_of}
use cobol_java_migrator_v.Planner.Dag.Order.{DepsFirst}
use cobol_java_migrator_v.Prelude.Dict.{get, put}
use cobol_java_migrator_v.Planner.Quality.Waves.{plan_verdict-waves}
use cobol_java_migrator_v.Prelude.{
  some, ok, String, ◌≡◌, refl, ◌↔◌, true, none, List, [], ◌∷◌, length, contains, insert_by,
  sorted_by,
}
use cobol_java_migrator_v.Prelude.{string_eq}

abbrev candidate : String → List String → List String → SeamCandidate
candidate p reads writes = record { program = p; weighted = 1; reads = reads; writes = writes }

abbrev story : String → String → Story
story id seam = record {
  id = id;
  title = seam;
  seam = seam;
  depends_on = [];
  evidence_map = ("seam", seam ∷ []) ∷ [];
  context = none;
  topology = none;
}

abbrev stories : List Story
stories = record (story "S2" "WRITER") { depends_on = "S1" ∷ [] } ∷ story "S1" "READER" ∷ []

abbrev seams : List SeamCandidate
seams = candidate "WRITER" [] ("ACCT" ∷ []) ∷ candidate "READER" ("ACCT" ∷ []) [] ∷ []

abbrev order : List String
order = "S1" ∷ "S2" ∷ []

abbrev waves : List (List String)
waves = ("S1" ∷ []) ∷ ("S2" ∷ []) ∷ []

abbrev passed_plan : PlanResult
passed_plan = (assess_plan_quality stories seams true order waves).1

passes : plan_verdict stories seams ≡ some (ok (true, passed_plan))
unfolding plan_verdict assess_plan_quality plan_passed measure_plan union difference ids_where
    dependency_ids seam_programs sorted_by insert_by topo_order topo_loop check_order degrees_of
    add_stories add_deps add_edge blank release free get put delivery_waves wave_loop release_all
    check_waves seen
passes = refl

plan_verdict-waves_example :
    (order : List String) × (waves : List (List String)) × (topo_order stories ≡ some (ok order))
    × (delivery_waves stories ≡ some (ok waves))
    × DepsFirst (edges_of stories) [] order
    × (length order ≡ length stories)
    × ((contains "S2" (story_ids stories) ≡ true) ↔ (contains "S2" (union waves) ≡ true))
    × (contains "S2" (dependency_ids stories) ≡ true → contains "S2" (story_ids stories) ≡ true)
plan_verdict-waves_example = plan_verdict-waves stories seams passed_plan "S2" passes
