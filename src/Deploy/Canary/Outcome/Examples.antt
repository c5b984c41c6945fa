-- ===== src/Deploy/Canary/Outcome/Examples.antt =====
-- Concrete inputs for the theorems of Outcome.
use cobol_java_migrator_v.Deploy.Canary.{CanaryOrchestrator, World, run}
use cobol_java_migrator_v.Deploy.Rollback.{CanaryHealth}
use cobol_java_migrator_v.Deploy.Canary.Outcome.{Explains, run-Explains}
use cobol_java_migrator_v.Prelude.{true, none, some, [], ◌∷◌, ok}
use cobol_java_migrator_v.Prelude.Int.{pos}

abbrev orchestrator : CanaryOrchestrator
orchestrator = record {
  deps = record {
    guard = record {
      workspace_id = "w";
      slice_name = "posting";
      max_error_rate = 50000;
      max_divergence_rate = 0;
    };
    smoke = ok (record {
      slice_name = "posting";
      health_ok = true;
      endpoints_ok = 1;
      endpoints_total = 1;
      failures = [];
    });
    perf =
        ok (
          record { slice_name = "posting"; cobol_p95 = pos 100; canary_p95 = 90; fixtures = 3 },
          0,
        );
  };
  workspace_id = "w";
  run_id = "a";
}

abbrev world : World
world = record {
  routing = record { slice_name = "posting"; canary_pct = pos 0 };
  cost = record {
    caps = (("w", none), 1000000) ∷ (("w", some "a"), 1000000) ∷ [];
    spending = [];
    tokens = [];
    kills = [];
  };
}

abbrev healthy : CanaryHealth
healthy = record { requests = 100; errors = 0; divergences = 0 }

run-Explains_example :
    Explains orchestrator true
      (pos 25)
      12000
      healthy
      world.routing
      (run orchestrator true (pos 25) 12000 healthy world)
run-Explains_example = run-Explains orchestrator true (pos 25) 12000 healthy world
