-- ===== src/Planner/Quality.antt =====
-- The quality gate of a plan (src/cobol_modernizer/planner/quality.py), and the verdict of its stage.
mod Waves
use cobol_java_migrator_v.Planner.Dag.{CycleError, topo_order, delivery_waves}
use cobol_java_migrator_v.Prelude.{
  Result, ok, err, Option, none, some, false, true, ℕ, String, Bool, not, ◌&&◌, List, [], ◌∷◌, ◌++◌,
  map, ltb, leb, eqb, ◌==◌, nat_eq, string_eq, pair_eq, option_eq, length, is_empty, keep_if, any,
  contains, count, sorted, to_set,
}
use cobol_java_migrator_v.Prelude.Dict.{values}
use cobol_java_migrator_v.Planner.Stories.{Story, SeamCandidate}

pub union : List (List String) → List String
union [] = []
union (w ∷ ws) = w ++ union ws

-- sorted(set(xs) - set(ys))
pub difference : List String → List String → List String
difference xs ys = sorted (keep_if (λ x. not (contains x ys)) (to_set xs))

abbrev has_evidence : Story → Bool
has_evidence s = any (λ refs. not (is_empty refs)) (values s.evidence_map)

abbrev pub story_ids : List Story → List String
story_ids = map (λ s. s.id)

pub ids_where : (Story → Bool) → List Story → List String
ids_where p stories = sorted (story_ids (keep_if p stories))

pub dependency_ids : List Story → List String
dependency_ids [] = []
dependency_ids (s ∷ ss) = s.depends_on ++ dependency_ids ss

pub record PlanResult : Type 0 where
  pub story_count : ℕ
  pub seam_count : ℕ
  pub acyclic : Bool
  pub topo_order_count : ℕ
  pub delivery_wave_count : ℕ
  pub duplicate_story_ids : List String
  pub unknown_dependency_ids : List String
  pub stories_without_seam : List String
  pub stories_with_unknown_seam : List String
  pub stories_without_evidence : List String
  pub missing_from_waves : List String
  pub unknown_wave_story_ids : List String

pub seam_programs : List SeamCandidate → List String
seam_programs cs = to_set (keep_if (λ p. not (p == "")) (map (λ c. c.program) cs))

pub measure_plan :
    List Story → List SeamCandidate → Bool → List String → List (List String) → PlanResult
measure_plan stories candidates acyclic topo_order waves =
    let ids = story_ids stories in
    let seams = seam_programs candidates in
    record {
      story_count = length stories;
      seam_count = length seams;
      acyclic = acyclic;
      topo_order_count = length topo_order;
      delivery_wave_count = length waves;
      duplicate_story_ids = sorted (to_set (keep_if (λ i. ltb 1 (count i ids)) ids));
      unknown_dependency_ids = difference (dependency_ids stories) ids;
      stories_without_seam = ids_where (λ s. s.seam == "") stories;
      stories_with_unknown_seam =
          ids_where (λ s. not (s.seam == "") && not (contains s.seam seams)) stories;
      stories_without_evidence = ids_where (λ s. not (has_evidence s)) stories;
      missing_from_waves = difference ids (union waves);
      unknown_wave_story_ids = difference (union waves) ids;
    }

pub plan_passed : PlanResult → ℕ → Bool
plan_passed r wave_id_count =
    r.acyclic
    && leb 1 r.story_count
    && eqb r.topo_order_count r.story_count
    && eqb wave_id_count r.story_count
    && is_empty r.duplicate_story_ids
    && is_empty r.unknown_dependency_ids
    && is_empty r.stories_without_seam
    && is_empty r.stories_with_unknown_seam
    && is_empty r.stories_without_evidence
    && is_empty r.missing_from_waves
    && is_empty r.unknown_wave_story_ids

pub assess_plan_quality :
    List Story → List SeamCandidate → Bool → List String → List (List String) → Bool × PlanResult
assess_plan_quality stories candidates acyclic topo_order waves =
    let r = measure_plan stories candidates acyclic topo_order waves in
    (plan_passed r (length (union waves)), r)

-- The verdict of the plan stage (`run_plan` of src/cobol_modernizer/controlplane/analysis.py): the
-- order and the waves are those of the graph where it is acyclic, and empty otherwise.
pub plan_verdict : List Story → List SeamCandidate → Option (Result CycleError (Bool × PlanResult))
plan_verdict stories candidates = elim (topo_order stories) [
  | none ↦ none
  | some (err e) ↦ some (ok (assess_plan_quality stories candidates false [] []))
  | some (ok order) ↦ elim (delivery_waves stories) [
    | none ↦ none
    | some (err e) ↦ some (err e)
    | some (ok waves) ↦ some (ok (assess_plan_quality stories candidates true order waves))
  ]
]
