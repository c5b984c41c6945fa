-- ===== src/Deploy/Canary.antt =====
-- deploy/canary.py: the lifecycle of one canary over the routing point and the cost policy. The
-- answers of the smoke and performance callables, exceptions included, are arguments; they change
-- neither the route nor the ledger. The guard holds the routing controller of the deps, as where
-- the tests of the repository build the two.
pub mod Outcome
pub mod Safety
use cobol_java_migrator_v.Prelude.{
  ℕ, String, Bool, not, ◌||◌, Option, none, some, [], if◌then◌else◌, ltb, Result, ok, err,
}
use cobol_java_migrator_v.Prelude.Int.{ℤ, pos}
use cobol_java_migrator_v.Cost.Policy.{CostLedger, CostError, record_usage, check}
use cobol_java_migrator_v.Deploy.Routing.{
  RoutingController, RoutingError, value_error, gate_not_passed, flip, reset_to_legacy,
}
use cobol_java_migrator_v.Deploy.Evidence.{SmokeResult, SmokeResult_passed, PerfBaseline, meets}
use cobol_java_migrator_v.Deploy.Rollback.{
  CanaryHealth, RollbackGuard, RollbackEvent, Reason, equivalence_divergence, error_rate, observe,
}

-- What a callable may raise: the exception that `run` catches, or another with its text.
pub data CallableError : Type 0 where
  over_budget : CallableError
  other_error : String → CallableError

-- `perf` gives the baseline and the number of divergences.
pub record CanaryDeps : Type 0 where
  pub guard : RollbackGuard
  pub smoke : Result CallableError SmokeResult
  pub perf : Result CallableError (PerfBaseline × ℕ)

pub record CanaryOrchestrator : Type 0 where
  pub deps : CanaryDeps
  pub open deps use *
  pub workspace_id : String
  pub run_id : String

-- What the deps hold that a run changes.
pub record World : Type 0 where
  pub routing : RoutingController
  pub cost : CostLedger

pub data Status : Type 0 where
  promoted rolled_back blocked_no_gate killed : Status

pub record CanaryResult : Type 0 where
  pub status : Status
  pub smoke : Option SmokeResult
  pub perf : Option PerfBaseline
  pub rollback_event : Option RollbackEvent
  pub detail : String

-- The exceptions that pass through `run`; a GateNotPassed never leaves the flip.
pub data CanaryError : Type 0 where
  budget_exceeded : CanaryError
  bad_percentage : CanaryError
  callable_raised : String → CanaryError

unfoldable pub raised_by : CallableError → CanaryError
raised_by over_budget = budget_exceeded
raised_by (other_error text) = callable_raised text

-- A method that may raise: what was written before the raise stays written.
abbrev Action : Type 0 → Type 0
Action A = World → Result CanaryError A × World

phase_cost_usd : ℤ
phase_cost_usd = pos 50_000

settled : World → Result CostError (Unit {0}) × CostLedger → Result CanaryError (Unit {0}) × World
settled w (ok done, l) = (ok tt, record w { cost = l })
settled w (err e, l) = (err budget_exceeded, record w { cost = l })

spend : CanaryOrchestrator → Action (Unit {0})
unfolding settled phase_cost_usd
spend o w =
    settled w (
      check o.workspace_id o.run_id (record_usage o.workspace_id o.run_id [] phase_cost_usd w.cost))

infixl 5 ◌>>◌
abbrev ◌>>◌ : {B : Type 0} → Action (Unit {0}) → Action B → Action B
◌>>◌ m k w = elim (m w).0 [ ok done ↦ k (m w).1 | err e ↦ (err e, (m w).1) ]

reset : World → World
reset w = record w { routing = reset_to_legacy w.routing }

-- What the run has seen when it comes to the flip.
seen : SmokeResult → PerfBaseline → Status → String → CanaryResult
seen smoke perf status detail = record {
  status = status;
  smoke = some smoke;
  perf = some perf;
  rollback_event = none;
  detail = detail;
}

unfoldable reason_text : Reason → String
reason_text equivalence_divergence = "equivalence_divergence"
reason_text error_rate = "error_rate"

module _ (smoke : SmokeResult) (perf : PerfBaseline) where
  observed :
      World → Option RollbackEvent × RoutingController → Result CanaryError CanaryResult × World
  unfolding seen
  observed w (none, c) = (ok (seen smoke perf promoted ""), record w { routing = c })
  observed w (some event, c) = (
    ok (record (seen smoke perf rolled_back (reason_text event.reason)) {
      rollback_event = some event;
    }),
    record w { routing = c },
  )

  observe_phase : CanaryOrchestrator → CanaryHealth → Action CanaryResult
  unfolding observed
  observe_phase o health w = observed w (observe o.guard health w.routing)

  -- The inner `except GateNotPassed`; a percentage out of range is not caught.
  flipped :
      CanaryOrchestrator
      → CanaryHealth
      → World
      → Result RoutingError RoutingController
      → Result CanaryError CanaryResult × World
  unfolding seen
  flipped o health w (ok c) = (spend o >> observe_phase o health) (record w { routing = c })
  flipped o health w (err gate_not_passed) =
      (ok (seen smoke perf blocked_no_gate "deploy gate not passed; flip refused"), w)
  flipped o health w (err value_error) = (err bad_percentage, w)

  flip_phase : CanaryOrchestrator → Bool → ℤ → CanaryHealth → Action CanaryResult
  flip_phase o gate canary_pct health w = flipped o health w (flip canary_pct gate w.routing)

module _ (o : CanaryOrchestrator) (gate : Bool) (canary_pct : ℤ) (max_p95_ratio : ℕ)
    (health : CanaryHealth) where
  measured : SmokeResult → PerfBaseline → ℕ → Action CanaryResult
  unfolding seen
  measured smoke perf divergences w =
      if ltb 0 divergences || not (meets max_p95_ratio perf)
      then (ok (seen smoke perf rolled_back "perf/divergence gate failed pre-flip"), reset w)
      else flip_phase smoke perf o gate canary_pct health w

  perf_answered : SmokeResult → Result CallableError (PerfBaseline × ℕ) → Action CanaryResult
  perf_answered smoke (err e) w = (err (raised_by e), w)
  perf_answered smoke (ok (perf, divergences)) w = measured smoke perf divergences w

  perf_phase : SmokeResult → Action CanaryResult
  perf_phase smoke = perf_answered smoke o.perf

  tested : SmokeResult → Action CanaryResult
  tested smoke w =
      if not (SmokeResult_passed smoke)
      then (
        ok (record {
          status = rolled_back;
          smoke = some smoke;
          perf = none;
          rollback_event = none;
          detail = "smoke failed; never flipped";
        }),
        reset w,
      )
      else (spend o >> perf_phase smoke) w

  smoke_answered : Result CallableError SmokeResult → Action CanaryResult
  smoke_answered (err e) w = (err (raised_by e), w)
  smoke_answered (ok smoke) w = tested smoke w

  smoke_phase : Action CanaryResult
  smoke_phase = smoke_answered o.smoke

-- The outer `except BudgetExceeded`.
caught : Result CanaryError CanaryResult × World → Result CanaryError CanaryResult × World
caught (ok result, w) = (ok result, w)
caught (err budget_exceeded, w) = (
  ok (record {
    status = killed;
    smoke = none;
    perf = none;
    rollback_event = none;
    detail = "cost cap tripped kill-switch";
  }),
  reset w,
)
caught (err bad_percentage, w) = (err bad_percentage, w)
caught (err (callable_raised text), w) = (err (callable_raised text), w)

pub run : CanaryOrchestrator → Bool → ℤ → ℕ → CanaryHealth → Action CanaryResult
run o gate canary_pct max_p95_ratio health w =
    caught ((spend o >> smoke_phase o gate canary_pct max_p95_ratio health) w)
