-- ===== src/Codegen/Budget/Resume/Examples.antt =====
-- Concrete inputs for the theorems of Resume.
use cobol_java_migrator_v.Codegen.Budget.{skipped, PriorRecord, should_skip}
use cobol_java_migrator_v.Codegen.Budget.Resume.{IsUnchanged, should_skip_iff}
use cobol_java_migrator_v.Prelude.{◌≡◌, ◌↔◌, true, Option, some}

abbrev prior : Option PriorRecord
prior = some (record { status = some skipped; context_hash = some "h1" })

should_skip_iff_example : (should_skip prior "h1" ≡ true) ↔ IsUnchanged prior "h1"
should_skip_iff_example = should_skip_iff prior "h1"
