-- ===== src/ControlPlane/Gates/Verdicts.antt =====
-- What a run of a stage may do to the verdict of its gate.
mod Examples
use cobol_java_migrator_v.Prelude.{
  ℕ, String, ◌≡◌, refl, ◌⊎◌, inl, inr, Bool, true, Option, none, some, List, [], ◌∷◌, arith,
  if◌then◌else◌, Option-cases, Eq, nat_eq, string_eq, pair_eq, option_eq,
}
use cobol_java_migrator_v.Prelude.Dict.{Dict, get, get-put}
use cobol_java_migrator_v.ControlPlane.Gates.{
  StageIds, Gate, GateStatus, GateKey, open_, passed, human_resolved, refreshed, created,
  upsert_gate,
}

abbrev key_eq : Eq GateKey
key_eq = pair_eq

module _ {P : Type 0} (stages : StageIds) (w stage_key g : String) (p : Bool) (result threshold : P)
    (now : ℕ) (gates : Dict GateKey (Gate P)) where
  abbrev upserted : Dict GateKey (Gate P)
  upserted = upsert_gate stages w stage_key g p result threshold now gates

  -- The row of the gate after the upsert, and every other row.
  get-upsert :
      (k : GateKey)
      → get k upserted ≡ (
          if key_eq.beq (w, g) k
          then some (elim (get (w, g) gates) [
            | none ↦ created (get (w, stage_key) stages) p result threshold now
            | some gate ↦ refreshed gate p result threshold now
          ])
          else get k gates)
  unfolding upsert_gate
  get-upsert k = elim (Option-cases (get (w, g) gates)) [
    | inl missing ↦ rw (missing, upsert_gate) (get-put (w, g) k _ gates)
    | inr (gate, found) ↦ rw (found, upsert_gate) (get-put (w, g) k _ gates)
  ]

-- One run of a stage, as it publishes its verdict.
record StageRun (P : Type 0) : Type 0 where
  pub workspace_id : String
  pub stage_key : String
  pub gate_key : String
  pub passes : Bool
  pub result : P
  pub threshold : P
  pub now : ℕ

module _ {P : Type 0} (stages : StageIds) where
  publish : Dict GateKey (Gate P) → StageRun P → Dict GateKey (Gate P)
  publish gates s =
      upsert_gate stages s.workspace_id s.stage_key s.gate_key s.passes s.result s.threshold s.now
        gates

  publish_all : Dict GateKey (Gate P) → List (StageRun P) → Dict GateKey (Gate P)
  publish_all gates [] = gates
  publish_all gates (s ∷ ss) = publish_all (publish gates s) ss

  -- The gate is there, with a status that counts as resolved.
  record Settled (k : GateKey) (v : GateStatus) (gates : Dict GateKey (Gate P)) : Type 0 where
    gate : Gate P
    found : get k gates ≡ some gate
    kept : gate.status ≡ v

  publish-Settled :
      (k : GateKey) (v : GateStatus) (gates : Dict GateKey (Gate P)) (s : StageRun P)
      → human_resolved v ≡ true
      → Settled k v gates
      → Settled k v (publish gates s)
  unfolding publish refreshed
  publish-Settled (w, g) v gates s final h = record {
    gate =
        if key_eq.beq (s.workspace_id, s.gate_key) (w, g)
        then refreshed h.gate s.passes s.result s.threshold s.now
        else h.gate;
    found = ground (
      arith,
      h.found,
      get-upsert stages s.workspace_id s.stage_key s.gate_key s.passes s.result s.threshold s.now
          gates (w, g),
      key_eq.beq_iff (s.workspace_id, s.gate_key) (w, g),
    );
    kept = ground (arith, h.kept);
  }

  publish_all-Settled :
      (k : GateKey) (v : GateStatus) (gates : Dict GateKey (Gate P)) (ss : List (StageRun P))
      → human_resolved v ≡ true
      → Settled k v gates
      → Settled k v (publish_all gates ss)
  unfolding publish_all
  publish_all-Settled k v gates [] final h = h
  publish_all-Settled k v gates (s ∷ ss) final h =
      publish_all-Settled k v (publish gates s) ss final (publish-Settled k v gates s final h)

  abbrev status_of : GateKey → Dict GateKey (Gate P) → Option GateStatus
  status_of k gates = elim (get k gates) [ none ↦ none | some gate ↦ some gate.status ]

  -- A gate that was passed, failed or waived keeps that status through any runs of any stages.
  resolved_stays :
      (k : GateKey) (gate : Gate P) (gates : Dict GateKey (Gate P)) (ss : List (StageRun P))
      → get k gates ≡ some gate
      → human_resolved gate.status ≡ true
      → status_of k (publish_all gates ss) ≡ some gate.status
  resolved_stays k gate gates ss found final =
      let h =
        publish_all-Settled k gate.status gates ss final
          (record { gate = gate; found = found; kept = refl }) in
      ground (arith, h.found, h.kept)

  first_pass :
      (s : StageRun P) (gates : Dict GateKey (Gate P))
      → s.passes ≡ true
      → (status_of (s.workspace_id, s.gate_key) gates ≡ none)
        ⊎ (status_of (s.workspace_id, s.gate_key) gates ≡ some open_)
      → Settled (s.workspace_id, s.gate_key) passed (publish gates s)
  unfolding publish refreshed created
  first_pass s gates p before = record {
    gate = elim (get (s.workspace_id, s.gate_key) gates) [
      | none ↦
          created (get (s.workspace_id, s.stage_key) stages) s.passes s.result s.threshold s.now
      | some gate ↦ refreshed gate s.passes s.result s.threshold s.now
    ];
    found = ground (
      arith,
      get-upsert stages s.workspace_id s.stage_key s.gate_key s.passes s.result s.threshold s.now
          gates (s.workspace_id, s.gate_key),
      key_eq.beq_iff (s.workspace_id, s.gate_key) (s.workspace_id, s.gate_key),
    );
    kept = ground arith;
  }

  -- A run that passes settles a gate that is absent or open as passed for good: no later run opens it
  -- again, one that does not pass included, since the code takes a passed gate for resolved.
  machine_pass_stays :
      (s : StageRun P) (gates : Dict GateKey (Gate P)) (ss : List (StageRun P))
      → s.passes ≡ true
      → (status_of (s.workspace_id, s.gate_key) gates ≡ none)
        ⊎ (status_of (s.workspace_id, s.gate_key) gates ≡ some open_)
      → status_of (s.workspace_id, s.gate_key) (publish_all (publish gates s) ss) ≡ some passed
  machine_pass_stays s gates ss p before =
      let h =
        publish_all-Settled (s.workspace_id, s.gate_key) passed (publish gates s) ss refl
          (first_pass s gates p before) in
      ground (arith, h.found, h.kept)
