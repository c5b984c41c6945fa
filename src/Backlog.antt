-- ===== src/Backlog.antt =====
-- The backlog (src/cobol_modernizer/backlog): its dependencies and its readiness.
pub mod Dependencies
pub mod Readiness
use cobol_java_migrator_v.Prelude.{String, List}

pub record AcceptanceCriterion : Type 0 where
  pub id : String
  pub evidence_refs : List String

pub record Epic : Type 0 where
  pub id : String
  pub story_ids : List String
  pub evidence_refs : List String

pub record BacklogStory : Type 0 where
  pub id : String
  pub epic_id : String
  pub brd_requirement_ids : List String
  pub evidence_refs : List String
  pub seam_refs : List String
  pub acceptance_criteria : List AcceptanceCriterion
  pub depends_on : List String
