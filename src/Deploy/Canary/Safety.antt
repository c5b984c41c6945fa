-- ===== src/Deploy/Canary/Safety.antt =====
-- The canary lifecycle against the stoppable-safe check of deploy/stoppable.py.
use cobol_java_migrator_v.Prelude.{ℕ, ◌≡◌, Bool, true, ok, err, Result, arith, ◌∙◌, ap}
use cobol_java_migrator_v.Prelude.Int.{ℤ, pos}
use cobol_java_migrator_v.Deploy.Routing.{
  RoutingController, RouteSnapshot, flip, assert_stoppable_safe,
}
use cobol_java_migrator_v.Deploy.Rollback.{CanaryHealth}
use cobol_java_migrator_v.Deploy.Canary.{
  CanaryOrchestrator, World, CanaryResult, CanaryError, Status, promoted, rolled_back,
  blocked_no_gate, killed, budget_exceeded, bad_percentage, callable_raised, run,
}
use cobol_java_migrator_v.Deploy.Canary.Outcome.{Means, Explains, run-Explains}

abbrev snapshot : RoutingController → Bool → RouteSnapshot
snapshot c gate = record {
  canary_pct = c.canary_pct;
  legacy_path_available = true;
  deploy_gate_passed = gate;
}

legacy_safe :
    (d : RoutingController) (gate : Bool)
    → d.canary_pct ≡ pos 0
    → assert_stoppable_safe (snapshot d gate) ≡ ok tt
unfolding assert_stoppable_safe
legacy_safe d gate e = ground arith

flip_safe :
    (c d : RoutingController) (pct : ℤ) (gate : Bool)
    → c.canary_pct ≡ pos 0
    → flip pct gate c ≡ ok d
    → assert_stoppable_safe (snapshot d gate) ≡ ok tt
unfolding assert_stoppable_safe flip
flip_safe c d pct gate z e = ground arith

module _ (o : CanaryOrchestrator) (gate : Bool) (pct : ℤ) (ratio : ℕ) (health : CanaryHealth)
    (c : RoutingController) (z : c.canary_pct ≡ pos 0) where
  Means-safe :
      (s : Status) (d : RoutingController)
      → Means o gate pct ratio health c s d
      → assert_stoppable_safe (snapshot d gate) ≡ ok tt
  Means-safe promoted d m = flip_safe c d pct gate z m.7
  Means-safe rolled_back d m = legacy_safe d gate m
  Means-safe killed d m = legacy_safe d gate m
  Means-safe blocked_no_gate d m =
      legacy_safe d gate (ap (λ (x : RoutingController). x.canary_pct) m.1 ∙ z)

  Explains-safe :
      (r : Result CanaryError CanaryResult × World)
      → Explains o gate pct ratio health c r
      → assert_stoppable_safe (snapshot r.1.routing gate) ≡ ok tt
  Explains-safe (ok r, w) m = Means-safe r.status w.routing m
  Explains-safe (err budget_exceeded, w) m = absurd m
  Explains-safe (err (callable_raised text), w) m =
      legacy_safe w.routing gate (ap (λ (x : RoutingController). x.canary_pct) m.1 ∙ z)
  Explains-safe (err bad_percentage, w) m =
      legacy_safe w.routing gate (ap (λ (x : RoutingController). x.canary_pct) m.1 ∙ z)

-- From full legacy, with the legacy path kept, every run of a canary ends in a route that passes the
-- stoppable-safe check for the gate that the run was given, the runs that raise included.
run_stoppable :
    (o : CanaryOrchestrator) (gate : Bool) (pct : ℤ) (ratio : ℕ) (health : CanaryHealth) (w : World)
    → w.routing.canary_pct ≡ pos 0
    → assert_stoppable_safe (snapshot (run o gate pct ratio health w).1.routing gate) ≡ ok tt
run_stoppable o gate pct ratio health w z =
    Explains-safe o gate pct ratio health w.routing z (run o gate pct ratio health w)
      (run-Explains o gate pct ratio health w)
