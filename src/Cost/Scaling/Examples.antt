-- ===== src/Cost/Scaling/Examples.antt =====
-- Concrete inputs for the theorems of Scaling.
use cobol_java_migrator_v.Cost.Scaling.{turns_for, turns_for_bounds}
use cobol_java_migrator_v.Prelude.{◌≤◌, arith}
use cobol_java_migrator_v.Prelude.Int.{pos}

turns_for_bounds_example :
    (12 ≤ turns_for (pos 3) 12 60 12 (pos 6))
    × (12 ≤ 60 → turns_for (pos 3) 12 60 12 (pos 6) ≤ 60)
    × (turns_for (pos 3) 12 60 12 (pos 6) ≤ turns_for (pos 9) 12 60 12 (pos 6))
turns_for_bounds_example = turns_for_bounds (pos 3) (pos 9) 12 60 12 (pos 6) (omega arith)
