-- ===== src/Codegen.antt =====
-- The code generation: its budgets, its quality gate, its repair loop, and the plan and the gate of
-- stories (src/cobol_modernizer/codegen).
pub mod Budget
pub mod QualityGate
pub mod RepairLoop
pub mod StoryPlan
pub mod StoryQuality
