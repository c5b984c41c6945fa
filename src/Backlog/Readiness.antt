-- ===== src/Backlog/Readiness.antt =====
-- The readiness of a backlog (src/cobol_modernizer/backlog/readiness.py). The ids of the BRD's
-- requirements are given as the texts that `str(...).strip()` makes of them; the coverage of the
-- graph and its threshold are in ten thousandths.
mod Verdict
use cobol_java_migrator_v.Prelude.{
  ℕ, ◌+◌, String, Bool, not, ◌&&◌, ◌||◌, List, [], ◌∷◌, ◌++◌, map, ltb, leb, if◌then◌else◌, ◌==◌,
  nat_eq, string_eq, pair_eq, option_eq, length, is_empty, keep_if, contains, count, sorted, to_set,
}
use cobol_java_migrator_v.Backlog.{AcceptanceCriterion, Epic, BacklogStory}

-- The first of each, without empty texts.
pub requirement_ids_from : List String → List String → List String
requirement_ids_from seen [] = []
requirement_ids_from seen (r ∷ rs) =
    let skips = r == "" || contains r seen in
    let rest = requirement_ids_from (if skips then seen else r ∷ seen) rs in
    if skips then rest else r ∷ rest

pub requirement_ids : List String → List String
requirement_ids = requirement_ids_from []

pub unknown_refs : List String → List String → List String
unknown_refs known refs = keep_if (λ r. not (r == "") && not (contains r known)) refs

-- sorted(set(xs) - set(ys))
pub minus : List String → List String → List String
minus xs ys = sorted (keep_if (λ x. not (contains x ys)) (to_set xs))

pub covered_ids : List BacklogStory → List String
covered_ids [] = []
covered_ids (s ∷ ss) = keep_if (λ r. not (r == "")) s.brd_requirement_ids ++ covered_ids ss

abbrev pub backlog_ids : List BacklogStory → List String
backlog_ids = map (λ s. s.id)

pub ids_where : (BacklogStory → Bool) → List BacklogStory → List String
ids_where p stories = sorted (backlog_ids (keep_if p stories))

pub criteria : List BacklogStory → List AcceptanceCriterion
criteria [] = []
criteria (s ∷ ss) = s.acceptance_criteria ++ criteria ss

pub epic_story_refs : List Epic → List String
epic_story_refs [] = []
epic_story_refs (e ∷ es) = e.story_ids ++ epic_story_refs es

pub epic_refs : List Epic → List String
epic_refs [] = []
epic_refs (e ∷ es) = e.evidence_refs ++ epic_refs es

pub criteria_refs : List AcceptanceCriterion → List String
criteria_refs [] = []
criteria_refs (a ∷ rest) = a.evidence_refs ++ criteria_refs rest

pub story_refs : List BacklogStory → List String
story_refs [] = []
story_refs (s ∷ ss) =
    (s.evidence_refs ++ (s.seam_refs ++ criteria_refs s.acceptance_criteria)) ++ story_refs ss

pub record ReadinessResult : Type 0 where
  pub expected : ℕ
  pub covered : ℕ
  pub missing_requirement_ids : List String
  pub unknown_requirement_ids : List String
  pub duplicate_story_ids : List String
  pub orphan_story_ids : List String
  pub stories_without_requirements : List String
  pub stories_without_evidence : List String
  pub stories_without_acceptance_criteria : List String
  pub ac_without_evidence : List String
  pub epic_story_refs_missing : List String
  pub unknown_evidence_refs : List String

pub measure_backlog : List Epic → List BacklogStory → List String → List String → ReadinessResult
measure_backlog epics stories brd_ids known_refs =
    let expected = requirement_ids brd_ids in
    let covered = to_set (covered_ids stories) in
    let ids = backlog_ids stories in
    record {
      expected = length expected;
      covered = length (keep_if (λ r. contains r expected) covered);
      missing_requirement_ids = minus expected covered;
      unknown_requirement_ids = minus covered expected;
      duplicate_story_ids = sorted (to_set (keep_if (λ i. ltb 1 (count i ids)) ids));
      orphan_story_ids = ids_where (λ s. not (contains s.epic_id (map (λ e. e.id) epics))) stories;
      stories_without_requirements = ids_where (λ s. is_empty s.brd_requirement_ids) stories;
      stories_without_evidence = ids_where (λ s. is_empty s.evidence_refs) stories;
      stories_without_acceptance_criteria = ids_where (λ s. is_empty s.acceptance_criteria) stories;
      ac_without_evidence =
          sorted (map (λ a. a.id) (keep_if (λ a. is_empty a.evidence_refs) (criteria stories)));
      epic_story_refs_missing =
          sorted
            (to_set (keep_if (λ i. not (i == "") && not (contains i ids)) (epic_story_refs epics)));
      unknown_evidence_refs =
          sorted (to_set (unknown_refs known_refs (epic_refs epics ++ story_refs stories)));
    }

-- The coverage is a quotient, and 1.0 where nothing is expected: it is 1.0 or more where all that
-- is expected is counted.
pub readiness_passed : ReadinessResult → ℕ → ℕ → Bool
readiness_passed r graph_coverage min_graph_coverage =
    leb r.expected r.covered
    && leb min_graph_coverage graph_coverage
    && is_empty r.missing_requirement_ids
    && is_empty r.unknown_requirement_ids
    && is_empty r.duplicate_story_ids
    && is_empty r.orphan_story_ids
    && is_empty r.stories_without_requirements
    && is_empty r.stories_without_evidence
    && is_empty r.stories_without_acceptance_criteria
    && is_empty r.ac_without_evidence
    && is_empty r.epic_story_refs_missing
    && is_empty r.unknown_evidence_refs

pub assess_backlog_readiness :
    List Epic → List BacklogStory → List String → List String → ℕ → ℕ → Bool × ReadinessResult
assess_backlog_readiness epics stories brd_ids known_refs graph_coverage min_graph_coverage =
    let r = measure_backlog epics stories brd_ids known_refs in
    (readiness_passed r graph_coverage min_graph_coverage, r)
