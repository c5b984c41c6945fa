-- ===== src/Planner/Dag/Correct/Examples.antt =====
-- Concrete inputs for the theorems of Correct.
use cobol_java_migrator_v.Planner.Stories.{Story}
use cobol_java_migrator_v.Planner.Dag.{
  ids_of_stories, blank, add_edge, add_deps, add_stories, degrees_of, release, free, topo_loop,
  check_order, topo_order,
}
use cobol_java_migrator_v.Planner.Dag.Graph.{edges_of}
use cobol_java_migrator_v.Planner.Dag.Order.{DepsFirst}
use cobol_java_migrator_v.Planner.Dag.Correct.{topo_order_sound, Descends, topo_order_complete}
use cobol_java_migrator_v.Prelude.{
  ℕ, ◌≤◌, String, ◌≡◌, refl, true, none, some, List, [], ◌∷◌, arith, if◌then◌else◌, ok, ◌==◌,
  length, contains, count, insert_by, sorted_by,
}
use cobol_java_migrator_v.Prelude.Dict.{get, put}
use cobol_java_migrator_v.Prelude.{string_eq}

abbrev story : String → List String → Story
story id deps = record {
  id = id;
  title = "";
  seam = id;
  depends_on = deps;
  evidence_map = [];
  context = none;
  topology = none;
}

-- S3 needs S1 and S2, S2 needs S1.
abbrev stories : List Story
stories = story "S3" ("S2" ∷ "S1" ∷ []) ∷ story "S2" ("S1" ∷ []) ∷ story "S1" [] ∷ []

abbrev order : List String
order = "S1" ∷ "S2" ∷ "S3" ∷ []

ordered : topo_order stories ≡ some (ok order)
unfolding topo_order topo_loop check_order degrees_of add_stories add_deps add_edge blank release
    free get put insert_by sorted_by
ordered = refl

topo_order_sound_example :
    DepsFirst (edges_of stories) [] order
    × (length order ≡ length stories)
    × ((m : String) → count m order ≤ 1)
    × ((m : String) → contains m order ≡ true → contains m (ids_of_stories stories) ≡ true)
topo_order_sound_example = topo_order_sound stories order ordered

abbrev rank : String → ℕ
rank s = if s == "S3" then 2 else if s == "S2" then 1 else 0

falls : Descends rank (ids_of_stories stories) (edges_of stories)
unfolding edges_of
falls = ((omega arith, refl), ((omega arith, refl), ((omega arith, refl), tt)))

topo_order_complete_example : (found : List String) × (topo_order stories ≡ some (ok found))
topo_order_complete_example = topo_order_complete rank stories (refl, (refl, (refl, tt))) falls
