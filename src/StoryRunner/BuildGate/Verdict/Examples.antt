-- ===== src/StoryRunner/BuildGate/Verdict/Examples.antt =====
-- Concrete inputs for the theorems of Verdict.
use cobol_java_migrator_v.Prelude.{String, Option, some, List, [], ◌∷◌, false}
use cobol_java_migrator_v.StoryRunner.BuildGate.{gate_stage}
use cobol_java_migrator_v.StoryRunner.BuildGate.Verdict.{Explains, gate_stage-Explains}

abbrev statuses : List (Option String)
statuses = some "passed" ∷ some "failed" ∷ some "deferred" ∷ some "skipped" ∷ []

gate_stage-Explains_example : Explains statuses false (gate_stage statuses false)
gate_stage-Explains_example = gate_stage-Explains statuses false
