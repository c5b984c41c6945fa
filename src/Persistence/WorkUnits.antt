-- ===== src/Persistence/WorkUnits.antt =====
-- The work-unit operations of persistence/repo.py over the table of units, in order of creation. A new
-- unit's id is an argument, as the database gives it; money is in whole micro-dollars.
pub mod Cache
use cobol_java_migrator_v.Prelude.{
  ℕ, ◌+◌, String, Bool, true, false, ◌&&◌, Option, none, some, List, [], ◌∷◌, ◌++◌, eqb,
  if◌then◌else◌, ◌==◌, nat_eq, string_eq, pair_eq, option_eq, keep_if,
}
use cobol_java_migrator_v.Prelude.Int.{ℤ, pos_part}

pub data Status : Type 0 where
  pending running succeeded cached failed deferred : Status

-- WORK_UNIT_TERMINAL_CACHE_STATUSES
abbrev pub is_terminal : Status → Bool
is_terminal succeeded = true
is_terminal cached = true
is_terminal _ = false

-- What a unit is looked up by.
pub record UnitKey : Type 0 where
  pub workspace_id : String
  pub stage : String
  pub unit_type : String
  pub unit_key : String
  pub input_hash : String

pub record WorkUnit (P : Type 0) : Type 0 where
  pub id : ℕ
  pub key : UnitKey
  pub status : Status
  pub attempt : ℕ
  pub model : Option String
  pub timeout_s : Option ℕ
  pub max_turns : Option ℕ
  pub payload : Option P
  pub cost_usd : ℕ
  pub artifact_id : Option String
  pub error_cause : Option String
  pub started_at : Option ℕ
  pub finished_at : Option ℕ

abbrev pub same_key : UnitKey → UnitKey → Bool
same_key a b =
    a.workspace_id == b.workspace_id
    && (a.stage == b.stage
        && (a.unit_type == b.unit_type
            && (a.unit_key == b.unit_key && a.input_hash == b.input_hash)))

-- An argument that is given replaces the field.
abbrev given {ℓ} : {A : Type ℓ} → Option A → Option A → Option A
given none old = old
given (some a) old = some a

module _ {P : Type 0} where
  -- .first() of the units that a test selects.
  pub first : (WorkUnit P → Bool) → List (WorkUnit P) → Option (WorkUnit P)
  first p [] = none
  first p (u ∷ us) = if p u then some u else first p us

  pub has_key : UnitKey → WorkUnit P → Bool
  has_key k u = same_key u.key k

  pending_unit : ℕ → UnitKey → Option String → Option ℕ → Option ℕ → WorkUnit P
  pending_unit id key model timeout_s max_turns = record {
    id = id;
    key = key;
    status = pending;
    attempt = 0;
    model = model;
    timeout_s = timeout_s;
    max_turns = max_turns;
    payload = none;
    cost_usd = 0;
    artifact_id = none;
    error_cause = none;
    started_at = none;
    finished_at = none;
  }

  -- The unit of the key, made if there is none.
  pub create_work_unit :
      ℕ
      → UnitKey
      → Option String
      → Option ℕ
      → Option ℕ
      → List (WorkUnit P)
      → WorkUnit P × List (WorkUnit P)
  unfolding pending_unit has_key
  create_work_unit id key model timeout_s max_turns us = elim (first (has_key key) us) [
    | some existing ↦ (existing, us)
    | none ↦ let unit = pending_unit id key model timeout_s max_turns in (unit, us ++ unit ∷ [])
  ]

  pub find_cached_work_unit : UnitKey → List (WorkUnit P) → Option (WorkUnit P)
  unfolding has_key
  find_cached_work_unit key us = first (λ u. has_key key u && is_terminal u.status) us

  -- The row of an id, rewritten; `none` is the ValueError for a unit that is not there.
  update_unit : ℕ → (WorkUnit P → WorkUnit P) → List (WorkUnit P) → Option (List (WorkUnit P))
  update_unit id f [] = none
  update_unit id f (u ∷ us) =
      let rest = update_unit id f us in
      if eqb u.id id then some (f u ∷ us) else elim rest [ none ↦ none | some us' ↦ some (u ∷ us') ]

  run_unit : Option String → Option ℕ → Option ℕ → ℕ → WorkUnit P → WorkUnit P
  run_unit model timeout_s max_turns now u = record u {
    status = running;
    attempt = u.attempt + 1;
    started_at = some now;
    finished_at = none;
    error_cause = none;
    model = given model u.model;
    timeout_s = given timeout_s u.timeout_s;
    max_turns = given max_turns u.max_turns;
  }

  succeed_unit : P → ℤ → Option String → Bool → ℕ → WorkUnit P → WorkUnit P
  succeed_unit payload cost_usd artifact_id is_cached now u = record u {
    status = if is_cached then cached else succeeded;
    payload = some payload;
    cost_usd = pos_part cost_usd;
    artifact_id = artifact_id;
    error_cause = none;
    finished_at = some now;
  }

  fail_unit : String → Option P → ℤ → Bool → ℕ → WorkUnit P → WorkUnit P
  fail_unit error_cause payload cost_usd is_deferred now u = record u {
    status = if is_deferred then deferred else failed;
    error_cause = some error_cause;
    payload = payload;
    cost_usd = pos_part cost_usd;
    finished_at = some now;
  }

  pub mark_work_unit_running :
      ℕ → Option String → Option ℕ → Option ℕ → ℕ → List (WorkUnit P) → Option (List (WorkUnit P))
  unfolding update_unit run_unit
  mark_work_unit_running id model timeout_s max_turns now =
      update_unit id (run_unit model timeout_s max_turns now)

  pub mark_work_unit_succeeded :
      ℕ → P → ℤ → Option String → Bool → ℕ → List (WorkUnit P) → Option (List (WorkUnit P))
  unfolding update_unit succeed_unit
  mark_work_unit_succeeded id payload cost_usd artifact_id is_cached now =
      update_unit id (succeed_unit payload cost_usd artifact_id is_cached now)

  pub mark_work_unit_failed :
      ℕ → String → Option P → ℤ → Bool → ℕ → List (WorkUnit P) → Option (List (WorkUnit P))
  unfolding update_unit fail_unit
  mark_work_unit_failed id error_cause payload cost_usd is_deferred now =
      update_unit id (fail_unit error_cause payload cost_usd is_deferred now)

  abbrev is_stage : Option String → WorkUnit P → Bool
  is_stage none u = true
  is_stage (some s) u = u.key.stage == s

  unfoldable list_work_units :
      (Status → Status → Bool)
      → String
      → Option String
      → Option Status
      → List (WorkUnit P)
      → List (WorkUnit P)
  list_work_units same workspace_id stage status us =
      keep_if
        (λ u.
          (u.key.workspace_id == workspace_id)
          && (is_stage stage u && elim status [ none ↦ true | some s ↦ same u.status s ]))
        us
