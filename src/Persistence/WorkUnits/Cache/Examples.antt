-- ===== src/Persistence/WorkUnits/Cache/Examples.antt =====
-- Concrete inputs for the theorems of Cache.
use cobol_java_migrator_v.Persistence.WorkUnits.{
  running, is_terminal, UnitKey, WorkUnit, same_key, first, has_key, find_cached_work_unit,
  update_unit, succeed_unit, mark_work_unit_succeeded,
}
use cobol_java_migrator_v.Persistence.WorkUnits.Cache.{has_id, cached_after_success}
use cobol_java_migrator_v.Prelude.{ℕ, ◌≡◌, refl, true, false, none, some, [], ◌∷◌}
use cobol_java_migrator_v.Prelude.Int.{pos}

abbrev key : UnitKey
key = record {
  workspace_id = "w";
  stage = "codegen";
  unit_type = "story";
  unit_key = "S1";
  input_hash = "h";
}

abbrev unit_one : WorkUnit ℕ
unit_one = record {
  id = 1;
  key = key;
  status = running;
  attempt = 1;
  model = none;
  timeout_s = none;
  max_turns = none;
  payload = none;
  cost_usd = 0;
  artifact_id = none;
  error_cause = none;
  started_at = none;
  finished_at = none;
}

marked :
    mark_work_unit_succeeded 1 7 (pos 30) none false 9 (unit_one ∷ [])
    ≡ some (succeed_unit 7 (pos 30) none false 9 unit_one ∷ [])
unfolding mark_work_unit_succeeded update_unit
marked = refl

there : first (has_id 1) (unit_one ∷ []) ≡ some unit_one
unfolding first
there = refl

keyed : first (has_key key) (unit_one ∷ []) ≡ some unit_one
unfolding first has_key same_key
keyed = refl

cached_after_success_example :
    let us = succeed_unit 7 (pos 30) none false 9 unit_one ∷ [] in
    (find_cached_work_unit key us ≡ some (succeed_unit 7 (pos 30) none false 9 unit_one))
    × ((k : UnitKey) (v : WorkUnit ℕ)
        → find_cached_work_unit k us ≡ some v
        → (has_key k v ≡ true) × (is_terminal v.status ≡ true))
cached_after_success_example =
    cached_after_success 1 7 (pos 30) none false 9 (unit_one ∷ [])
      (succeed_unit 7 (pos 30) none false 9 unit_one ∷ []) unit_one there keyed marked
