-- ===== src/Backlog/Readiness/Verdict/Examples.antt =====
-- Concrete inputs for the theorems of Verdict.
use cobol_java_migrator_v.Backlog.Readiness.{
  requirement_ids_from, requirement_ids, unknown_refs, minus, covered_ids, ids_where, criteria,
  epic_story_refs, epic_refs, criteria_refs, story_refs, measure_backlog, readiness_passed,
  assess_backlog_readiness,
}
use cobol_java_migrator_v.Backlog.{AcceptanceCriterion, Epic, BacklogStory}
use cobol_java_migrator_v.Backlog.Readiness.Verdict.{assess_backlog_readiness-ready}
use cobol_java_migrator_v.Prelude.{
  ◌≤◌, String, ◌≡◌, refl, ◌↔◌, true, not, ◌&&◌, [], ◌∷◌, is_empty, all, contains, insert_by,
  sorted_by,
}
use cobol_java_migrator_v.Prelude.{string_eq}

abbrev criterion : AcceptanceCriterion
criterion = record { id = "AC-1"; evidence_refs = "CBACT04C" ∷ [] }

abbrev story : BacklogStory
story = record {
  id = "S1";
  epic_id = "E1";
  brd_requirement_ids = "R1" ∷ [];
  evidence_refs = "CBACT04C" ∷ [];
  seam_refs = [];
  acceptance_criteria = criterion ∷ [];
  depends_on = [];
}

abbrev epic : Epic
epic = record { id = "E1"; story_ids = "S1" ∷ []; evidence_refs = [] }

ready :
    (assess_backlog_readiness (epic ∷ []) (story ∷ []) ("R1" ∷ []) ("CBACT04C" ∷ []) 9000 8000).0
    ≡ true
unfolding assess_backlog_readiness measure_backlog readiness_passed requirement_ids
    requirement_ids_from unknown_refs minus covered_ids ids_where criteria epic_story_refs epic_refs
    criteria_refs story_refs insert_by sorted_by
ready = refl

assess_backlog_readiness-ready_example :
    (8000 ≤ 9000)
    × ((r : String)
        → (contains r (requirement_ids ("R1" ∷ [])) ≡ true)
          ↔ (contains r (covered_ids (story ∷ [])) ≡ true))
    × (all
          (λ s.
            contains s.epic_id ("E1" ∷ [])
            && not (is_empty s.brd_requirement_ids)
            && not (is_empty s.evidence_refs)
            && not (is_empty s.acceptance_criteria))
          (story ∷ [])
        ≡ true)
assess_backlog_readiness-ready_example =
    assess_backlog_readiness-ready (epic ∷ []) (story ∷ []) ("R1" ∷ []) ("CBACT04C" ∷ []) 9000 8000
      ready
