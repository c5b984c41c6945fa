-- ===== src/Planner.antt =====
-- The story planner (src/cobol_modernizer/planner): stories of seams, their dependencies, the
-- INVEST judgement and the plan's quality gate.
pub mod Stories
pub mod Invest
pub mod Quality
pub mod Dag
