-- ===== src/Deploy/Canary/Outcome.antt =====
-- What each outcome of a canary run says of the evidence, and of the route that it leaves.
mod Examples
use cobol_java_migrator_v.Prelude.{
  ℕ, ◌≡◌, refl, Bool, true, false, not, ◌||◌, none, [], ◌∙◌, sym, ap, Option-cases, ◌⊎◌, ltb,
  Result, ok, err, inl, inr, arith, Bool-cases,
}
use cobol_java_migrator_v.Prelude.Int.{ℤ, pos}
use cobol_java_migrator_v.Cost.Policy.{CostLedger, CostError, check, record_usage}
use cobol_java_migrator_v.Deploy.Routing.{
  RoutingController, RoutingError, flip, reset_to_legacy, value_error, gate_not_passed,
}
use cobol_java_migrator_v.Deploy.Evidence.{SmokeResult, PerfBaseline, SmokeResult_passed, meets}
use cobol_java_migrator_v.Deploy.Rollback.{CanaryHealth, observe, breach}
use cobol_java_migrator_v.Deploy.Canary.{
  CanaryOrchestrator, World, Status, CanaryResult, CanaryError, CallableError, over_budget,
  other_error, callable_raised, raised_by, measured, tested, promoted, blocked_no_gate, killed,
  rolled_back, budget_exceeded, bad_percentage, settled, spend, reset, observed, observe_phase,
  flipped, flip_phase, perf_phase, smoke_phase, perf_answered, smoke_answered, caught, run, seen,
  ◌>>◌, phase_cost_usd,
}

module _ (o : CanaryOrchestrator) (gate : Bool) (pct : ℤ) (ratio : ℕ) (health : CanaryHealth)
    (c : RoutingController) where
  -- What a status is to say of a run that began at the route `c` and ended at the route `d`.
  abbrev pub Means : Status → RoutingController → Type 0
  Means promoted d =
      (smoke : SmokeResult) × (perf : PerfBaseline) × (o.smoke ≡ ok smoke)
      × (o.perf ≡ ok (perf, 0))
      × (SmokeResult_passed smoke ≡ true)
      × (meets ratio perf ≡ true)
      × (breach o.guard health ≡ none)
      × (flip pct gate c ≡ ok d)
  Means rolled_back d = d.canary_pct ≡ pos 0
  Means killed d = d.canary_pct ≡ pos 0
  Means blocked_no_gate d = (gate ≡ false) × (d ≡ c)

  -- A run returns, or raises for a percentage out of range or with a callable, and leaves the route
  -- alone.
  abbrev pub Explains : Result CanaryError CanaryResult × World → Type 0
  Explains (ok r, w) = Means r.status w.routing
  Explains (err budget_exceeded, w) = ⊥
  Explains (err bad_percentage, w) = (flip pct gate c ≡ err value_error) × (w.routing ≡ c)
  Explains (err (callable_raised text), w) =
      ((o.smoke ≡ err (other_error text)) ⊎ (o.perf ≡ err (other_error text))) × (w.routing ≡ c)

  -- The same before the budget's handler has run.
  abbrev Pending : Result CanaryError CanaryResult × World → Type 0
  Pending (ok r, w) = Explains (ok r, w)
  Pending (err budget_exceeded, w) = Unit
  Pending (err bad_percentage, w) = Explains (err bad_percentage, w)
  Pending (err (callable_raised text), w) = Explains (err (callable_raised text), w)

  caught-Explains : (r : Result CanaryError CanaryResult × World) → Pending r → Explains (caught r)
  unfolding caught reset reset_to_legacy
  caught-Explains (ok s, w) p = p
  caught-Explains (err budget_exceeded, w) p = refl
  caught-Explains (err bad_percentage, w) p = p
  caught-Explains (err (callable_raised text), w) p = p

  -- A spend leaves the route alone, and raises for the budget only.
  settled-Pending :
      (w : World) (p : Result CostError (Unit {0}) × CostLedger)
      (k : World → Result CanaryError CanaryResult × World)
      → ((v : World) → v.routing ≡ w.routing → Pending (k v))
      → Pending (((λ _. settled w p) >> k) w)
  unfolding settled
  settled-Pending w (ok done, l) k h = h _ refl
  settled-Pending w (err e, l) k h = tt

  spend-Pending :
      (w : World) (k : World → Result CanaryError CanaryResult × World)
      → ((v : World) → v.routing ≡ w.routing → Pending (k v))
      → Pending ((spend o >> k) w)
  unfolding spend
  spend-Pending w k h =
      settled-Pending w
        (check o.workspace_id o.run_id
          (record_usage o.workspace_id o.run_id [] phase_cost_usd w.cost))
        k h

  -- An exception of a callable: the budget's is caught, another leaves the run.
  raised-Pending :
      (e : CallableError) (w : World)
      → (o.smoke ≡ err e) ⊎ (o.perf ≡ err e)
      → w.routing ≡ c
      → Pending (err (raised_by e), w)
  unfolding raised_by
  raised-Pending over_budget w raised same = tt
  raised-Pending (other_error text) w raised same = (raised, same)

  module _ (smoke : SmokeResult) (perf : PerfBaseline) (tested_as : o.smoke ≡ ok smoke)
      (measured_as : o.perf ≡ ok (perf, 0)) (smoke_ok : SmokeResult_passed smoke ≡ true)
      (perf_ok : meets ratio perf ≡ true) where
    observe-Pending :
        (v : World) → flip pct gate c ≡ ok v.routing → Pending (observe_phase smoke perf o health v)
    unfolding observe_phase observed observe reset_to_legacy seen
    observe-Pending v e = elim (Option-cases (breach o.guard health)) [
      | inl healthy ↦
          rw (healthy, observe) (smoke, perf, tested_as, measured_as, smoke_ok, perf_ok, healthy, e)
      | inr (why, breached) ↦ rw (breached, observe) refl
    ]

    refused : flip pct gate c ≡ err gate_not_passed → gate ≡ false
    unfolding flip
    refused e = ground arith

    flipped-Pending :
        (w : World) (r : Result RoutingError RoutingController)
        → w.routing ≡ c
        → flip pct gate c ≡ r
        → Pending (flipped smoke perf o health w r)
    unfolding flipped seen
    flipped-Pending w (ok d) same e =
        spend-Pending (record w { routing = d }) (observe_phase smoke perf o health)
          (λ v moved. observe-Pending v (e ∙ ap ok (sym moved)))
    flipped-Pending w (err gate_not_passed) same e = (refused e, same)
    flipped-Pending w (err value_error) same e = (e, same)

    flip-Pending : (w : World) → w.routing ≡ c → Pending (flip_phase smoke perf o gate pct health w)
    unfolding flip_phase
    flip-Pending w same =
        flipped-Pending w (flip pct gate w.routing) same (ap (flip pct gate) (sym same))

  measured-Pending :
      (smoke : SmokeResult) (perf : PerfBaseline) (divergences : ℕ)
      → o.smoke ≡ ok smoke
      → o.perf ≡ ok (perf, divergences)
      → SmokeResult_passed smoke ≡ true
      → (w : World) → w.routing ≡ c
      → Pending (measured o gate pct ratio health smoke perf divergences w)
  unfolding measured reset reset_to_legacy seen
  measured-Pending smoke perf divergences tested_as measured_as smoke_ok w same =
      elim (Bool-cases (ltb 0 divergences || not (meets ratio perf))) [
        | inl bad ↦ rw (bad, measured) refl
        | inr good ↦
            let agree : divergences ≡ 0 = ground arith in
            rw (good, measured)
              (flip-Pending smoke perf tested_as (measured_as ∙ ap (λ n. ok (perf, n)) agree)
                smoke_ok (ground arith) w same)
      ]

  perf_answered-Pending :
      (smoke : SmokeResult)
      → o.smoke ≡ ok smoke
      → SmokeResult_passed smoke ≡ true
      → (r : Result CallableError (PerfBaseline × ℕ)) → o.perf ≡ r
      → (w : World) → w.routing ≡ c
      → Pending (perf_answered o gate pct ratio health smoke r w)
  unfolding perf_answered
  perf_answered-Pending smoke tested_as smoke_ok (err e) raised w same =
      raised-Pending e w (inr raised) same
  perf_answered-Pending smoke tested_as smoke_ok (ok (perf, divergences)) measured_as w same =
      measured-Pending smoke perf divergences tested_as measured_as smoke_ok w same

  tested-Pending :
      (smoke : SmokeResult)
      → o.smoke ≡ ok smoke
      → (w : World) → w.routing ≡ c
      → Pending (tested o gate pct ratio health smoke w)
  unfolding tested perf_phase reset reset_to_legacy
  tested-Pending smoke tested_as w same = elim (Bool-cases (SmokeResult_passed smoke)) [
    | inl smoke_ok ↦
        rw (smoke_ok, tested)
          (spend-Pending w (perf_phase o gate pct ratio health smoke) (λ v moved.
            perf_answered-Pending smoke tested_as smoke_ok o.perf refl v (moved ∙ same)))
    | inr bad ↦ rw (bad, tested) refl
  ]

  smoke_answered-Pending :
      (r : Result CallableError SmokeResult)
      → o.smoke ≡ r
      → (w : World) → w.routing ≡ c
      → Pending (smoke_answered o gate pct ratio health r w)
  unfolding smoke_answered
  smoke_answered-Pending (err e) raised w same = raised-Pending e w (inl raised) same
  smoke_answered-Pending (ok smoke) tested_as w same = tested-Pending smoke tested_as w same

  smoke-Pending : (w : World) → w.routing ≡ c → Pending (smoke_phase o gate pct ratio health w)
  unfolding smoke_phase
  smoke-Pending = smoke_answered-Pending o.smoke refl

-- What every run of a canary ends in. Promoted: the smoke run passed, no answer diverged, the
-- latency met its bound, the health breached no threshold, and the route is what the gated flip of
-- the first route gives. Rolled back or killed: the route is fully legacy. Blocked: the gate had
-- not passed, and the route is as before. The exceptions that leave a run are the one for a
-- percentage out of range and those of the smoke and performance callables that are not of the
-- budget, with the route as before.
pub run-Explains :
    (o : CanaryOrchestrator) (gate : Bool) (pct : ℤ) (ratio : ℕ) (health : CanaryHealth) (w : World)
    → Explains o gate pct ratio health w.routing (run o gate pct ratio health w)
unfolding run
run-Explains o gate pct ratio health w = caught-Explains o gate pct ratio health w.routing _ (
    spend-Pending o gate pct ratio health w.routing w (smoke_phase o gate pct ratio health)
      (smoke-Pending o gate pct ratio health w.routing))
