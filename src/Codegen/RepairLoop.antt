-- ===== src/Codegen/RepairLoop.antt =====
-- The repair loop (src/cobol_modernizer/codegen/repair_loop.py and schema.py): build, and while the
-- gate fails feed its report to the repair agent and apply the patches. The build lab, the budget
-- guard and the agent are arguments; each may answer differently at each attempt, and the latter
-- two may raise.
mod Loop
mod Patches
use cobol_java_migrator_v.Prelude.{
  ℕ, zero, suc, ◌+◌, String, Bool, true, false, not, ◌&&◌, Option, none, some, List, [], ◌∷◌, ◌++◌,
  map, ltb, Result, ok, err, nat_eq, string_eq, pair_eq, option_eq, length,
}
use cobol_java_migrator_v.Prelude.Dict.{Dict, put, values}
use cobol_java_migrator_v.Codegen.QualityGate.{Gate, QualityReport}

pub data Kind : Type 0 where
  test_file : Kind
  main_file : Kind

pub record GeneratedFile : Type 0 where
  pub path : String
  pub kind : Kind
  pub content : String
  pub evidence : List String

pub record GeneratedProject : Type 0 where
  pub slice_id : String
  pub files : List GeneratedFile
  pub evidence_map : Dict String (List String)

-- The gate is none where the code writes "unknown".
pub record RepairAttempt : Type 0 where
  pub attempt : ℕ
  pub failing_gate : Option Gate
  pub log_excerpt : String
  pub patched_files : List String

pub record CodegenResult : Type 0 where
  pub project : GeneratedProject
  pub attempts : List RepairAttempt
  pub passed : Bool

-- {f.path: f for f in files}, put over a dict.
pub by_path : List GeneratedFile → Dict String GeneratedFile → Dict String GeneratedFile
by_path [] d = d
by_path (f ∷ fs) d = by_path fs (put f.path f d)

pub apply_patches : GeneratedProject → List GeneratedFile → GeneratedProject
apply_patches project patched = record {
  slice_id = project.slice_id;
  files = values (by_path patched (by_path project.files []));
  evidence_map = project.evidence_map;
}

-- The cut `[:500]` of a text is an argument.
module _ {E : Type 0} (verify : ℕ → GeneratedProject → QualityReport)
    (guard : ℕ → Result E (Unit {0}))
    (run_structured : ℕ → QualityReport → Result E (List GeneratedFile)) (cut : String → String)
    (max_attempts : ℕ) where
  pub attempt_of : List RepairAttempt → QualityReport → List GeneratedFile → RepairAttempt
  attempt_of attempts report patched = record {
    attempt = length attempts + 1;
    failing_gate = report.failing_gate;
    log_excerpt = cut report.log_excerpt;
    patched_files = map (λ p. p.path) patched;
  }

  -- The while loop, on fuel: none where it runs out.
  pub repair : ℕ → GeneratedProject → List RepairAttempt → Option (Result E CodegenResult)
  repair zero project attempts = none
  repair (suc fuel) project attempts =
      let report = verify (length attempts) project in
      elim (not report.passed && ltb (length attempts) max_attempts) [
        | false ↦
            some (ok (record { project = project; attempts = attempts; passed = report.passed }))
        | true ↦ elim (guard (length attempts)) [
          | err e ↦ some (err e)
          | ok u ↦ elim (run_structured (length attempts) report) [
            | err e ↦ some (err e)
            | ok patched ↦
                repair fuel (apply_patches project patched)
                  (attempts ++ attempt_of attempts report patched ∷ [])
          ]
        ]
      ]

  -- One round more than the attempts allowed.
  pub run_repair_loop : GeneratedProject → Option (Result E CodegenResult)
  run_repair_loop project = repair (suc max_attempts) project []
