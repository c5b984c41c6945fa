-- ===== src/Planner/Quality/Waves.antt =====
-- The waves of a passed plan.
mod Examples
use cobol_java_migrator_v.Planner.Dag.{topo_order, delivery_waves}
use cobol_java_migrator_v.Planner.Dag.Graph.{edges_of}
use cobol_java_migrator_v.Planner.Dag.Order.{DepsFirst}
use cobol_java_migrator_v.Planner.Dag.Correct.{topo_order_sound}
use cobol_java_migrator_v.Prelude.{
  Option-cases, Result-cases, ok, some, ap, ◌≤◌, String, ◌≡◌, refl, sym, ◌∙◌, ◌↔◌, inl, inr, Bool,
  true, false, not, ◌&&◌, List, [], ◌∷◌, arith, Bool-cases, ◌==◌, nat_eq, string_eq, pair_eq,
  option_eq, length, is_empty, keep_if, contains, text_leb, sorted, empty-difference, to_set,
}
use cobol_java_migrator_v.Planner.Stories.{Story, SeamCandidate}
use cobol_java_migrator_v.Planner.Quality.{
  PlanResult, plan_verdict, union, difference, story_ids, dependency_ids, measure_plan, plan_passed,
  assess_plan_quality,
}

-- A passed plan has a story; its waves name exactly the stories, as many times as
-- there are stories; and every dependency is a story.
pub assess_plan_quality-waves :
    (stories : List Story) (candidates : List SeamCandidate) (acyclic : Bool)
    (topo_order : List String) (waves : List (List String)) (a : String)
    → (assess_plan_quality stories candidates acyclic topo_order waves).0 ≡ true
    → (1 ≤ length stories)
      × (length (union waves) ≡ length stories)
      × ((contains a (story_ids stories) ≡ true) ↔ (contains a (union waves) ≡ true))
      × (contains a (dependency_ids stories) ≡ true → contains a (story_ids stories) ≡ true)
unfolding assess_plan_quality plan_passed measure_plan difference
assess_plan_quality-waves stories candidates acyclic topo_order waves a h =
    let ids = story_ids stories in
    let all_ids = union waves in
    (
      ground arith,
      ground arith,
      (
        empty-difference ids all_ids (ground arith) a,
        empty-difference all_ids ids (ground arith) a,
      ),
      empty-difference (dependency_ids stories) ids (ground arith) a,
    )

not_cyclic :
    (stories : List Story) (candidates : List SeamCandidate) (order : List String)
    (waves : List (List String))
    → (assess_plan_quality stories candidates false order waves).0 ≡ true
    → ⊥
unfolding assess_plan_quality plan_passed measure_plan
not_cyclic stories candidates order waves h = ground arith

-- A plan whose verdict is positive is acyclic: `topo_order` returns an order that names as many
-- entries as there are stories, each after its dependencies. Its waves are those of the graph, and
-- name exactly the stories; and every dependency is a story.
pub plan_verdict-waves :
    (stories : List Story) (candidates : List SeamCandidate) (r : PlanResult) (a : String)
    → plan_verdict stories candidates ≡ some (ok (true, r))
    → (order : List String) × (waves : List (List String)) × (topo_order stories ≡ some (ok order))
      × (delivery_waves stories ≡ some (ok waves))
      × DepsFirst (edges_of stories) [] order
      × (length order ≡ length stories)
      × ((contains a (story_ids stories) ≡ true) ↔ (contains a (union waves) ≡ true))
      × (contains a (dependency_ids stories) ≡ true → contains a (story_ids stories) ≡ true)
unfolding plan_verdict
plan_verdict-waves stories candidates r a h = elim (Option-cases (topo_order stories)) [
  | inl stuck ↦ absurd (ground (arith, stuck))
  | inr (answer, ordered) ↦ elim (Result-cases answer) [
    | inl (e, raised) ↦
        let verdict = assess_plan_quality stories candidates false [] [] in
        let same : verdict ≡ (true, r) = ground (arith, ordered, raised) in
        absurd (not_cyclic stories candidates [] [] (ap (λ (v : Bool × PlanResult). v.0) same))
    | inr (order, found) ↦ elim (Option-cases (delivery_waves stories)) [
      | inl stuck ↦ absurd (ground (arith, ordered, found, stuck))
      | inr (delivered, ended) ↦ elim (Result-cases delivered) [
        | inl (e, raised) ↦ absurd (ground (arith, ordered, found, ended, raised))
        | inr (waves, given) ↦
            let same : assess_plan_quality stories candidates true order waves ≡ (true, r) =
              ground (arith, ordered, found, ended, given) in
            let passes = ap (λ (v : Bool × PlanResult). v.0) same in
            let (some_story, size, names, known) =
              assess_plan_quality-waves stories candidates true order waves a passes in
            let topo : topo_order stories ≡ some (ok order) = ground (arith, ordered, found) in
            let (first, count, _, _) = topo_order_sound stories order topo in
            (order, waves, topo, ground (arith, ended, given), first, count, names, known)
      ]
    ]
  ]
]
