-- ===== src/ControlPlane/Gates.antt =====
-- controlplane/stages.py and controlplane/gates_util.py. The gate table holds at most one row to a
-- workspace and gate key; the payloads of a gate are of any type.
pub mod Verdicts
use cobol_java_migrator_v.Prelude.{
  ℕ, String, Bool, true, false, Option, none, some, List, [], ◌∷◌, if◌then◌else◌, pair_eq,
  string_eq, ◌==◌,
}
use cobol_java_migrator_v.Prelude.Dict.{Dict, get, put}

record StageDef : Type 0 where
  pub key : String
  pub label : String
  pub ordinal : ℕ
  pub gate_key : Option String

abbrev stage : String → String → ℕ → Option String → StageDef
stage key label ordinal gate_key = record {
  key = key;
  label = label;
  ordinal = ordinal;
  gate_key = gate_key;
}

abbrev journey_stages : List StageDef
journey_stages =
    stage "outcome" "Outcome" 0 none
    ∷ stage "intake" "Intake" 1 none
    ∷ stage "parse" "Parse" 2 (some "parse")
    ∷ stage "graph" "Graph" 3 (some "graph")
    ∷ stage "explore" "Explore" 4 none
    ∷ stage "blueprint" "Blueprint" 5 (some "brd_groundedness")
    ∷ stage "backlog" "Backlog" 6 (some "backlog_coverage")
    ∷ stage "seams" "Seams" 7 none
    ∷ stage "plan" "Plan" 8 (some "stories_dag")
    ∷ stage "domain" "Domain Design" 9 none
    ∷ stage "design" "Design" 10 (some "design_data_ownership")
    ∷ stage "build" "Build" 11 (some "code")
    ∷ stage "verify" "Verify" 12 (some "equivalence")
    ∷ []

gate_key_in : List StageDef → String → Option String
gate_key_in [] stage_key = none
gate_key_in (s ∷ ss) stage_key = if s.key == stage_key then s.gate_key else gate_key_in ss stage_key

unfoldable gate_key_for : String → Option String
unfolding gate_key_in
gate_key_for stage_key = gate_key_in journey_stages stage_key

pub data GateStatus : Type 0 where
  open_ passed failed waived : GateStatus

-- The statuses that the code reads as a human's resolution.
abbrev pub human_resolved : GateStatus → Bool
human_resolved open_ = false
human_resolved passed = true
human_resolved failed = true
human_resolved waived = true

pub record Gate (P : Type 0) : Type 0 where
  pub stage_id : Option String
  pub status : GateStatus
  pub threshold : P
  pub result : P
  pub updated_at : ℕ

-- (workspace_id, gate_key)
abbrev pub GateKey : Type 0
GateKey = String × String

-- The rows of the workspaces' journey stages, by workspace and stage key.
abbrev pub StageIds : Type 0
StageIds = Dict (String × String) String

abbrev computed : Bool → GateStatus
computed p = if p then passed else open_

module _ {P : Type 0} where
  refreshed : Gate P → Bool → P → P → ℕ → Gate P
  refreshed gate p result threshold now = record {
    stage_id = gate.stage_id;
    status = if human_resolved gate.status then gate.status else computed p;
    threshold = threshold;
    result = result;
    updated_at = now;
  }

  created : Option String → Bool → P → P → ℕ → Gate P
  created stage_id p result threshold now = record {
    stage_id = stage_id;
    status = computed p;
    threshold = threshold;
    result = result;
    updated_at = now;
  }

  pub upsert_gate :
      StageIds
      → String
      → String
      → String
      → Bool
      → P
      → P
      → ℕ
      → Dict GateKey (Gate P)
      → Dict GateKey (Gate P)
  unfolding refreshed created
  upsert_gate stages workspace_id stage_key gate_key p result threshold now gates =
      elim (get (workspace_id, gate_key) gates) [
        | none ↦
            put (workspace_id, gate_key)
              (created (get (workspace_id, stage_key) stages) p result threshold now) gates
        | some gate ↦ put (workspace_id, gate_key) (refreshed gate p result threshold now) gates
      ]
