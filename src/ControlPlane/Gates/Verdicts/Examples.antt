-- ===== src/ControlPlane/Gates/Verdicts/Examples.antt =====
-- Concrete inputs for the theorems of Verdicts.
use cobol_java_migrator_v.ControlPlane.Gates.{passed, waived, Gate, StageIds}
use cobol_java_migrator_v.ControlPlane.Gates.Verdicts.{
  StageRun, publish, publish_all, status_of, machine_pass_stays,
}
use cobol_java_migrator_v.Prelude.{ℕ, ◌≡◌, refl, inl, Bool, true, false, none, some, [], ◌∷◌}
use cobol_java_migrator_v.Prelude.Dict.{get}
use cobol_java_migrator_v.Prelude.{string_eq}

abbrev rerun : Bool → StageRun ℕ
rerun p = record {
  workspace_id = "w";
  stage_key = "build";
  gate_key = "code";
  passes = p;
  result = 1;
  threshold = 2;
  now = 9;
}

abbrev no_stages : StageIds
no_stages = []

abbrev waived_gate : Gate ℕ
waived_gate = record { stage_id = none; status = waived; threshold = 0; result = 0; updated_at = 1 }

machine_pass_stays_example :
    status_of no_stages
      ("w", "code")
      (publish_all no_stages (publish no_stages [] (rerun true)) (rerun false ∷ []))
    ≡ some passed
unfolding get
machine_pass_stays_example =
    machine_pass_stays no_stages (rerun true) [] (rerun false ∷ []) refl (inl refl)
