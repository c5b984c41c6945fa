-- ===== src/Deploy/Routing/Gating/Examples.antt =====
-- Concrete inputs for the theorems of Gating.
use cobol_java_migrator_v.Deploy.Routing.{legacy, RoutingController, route}
use cobol_java_migrator_v.Deploy.Routing.Gating.{Call, flips, resets, run, run_ungated}
use cobol_java_migrator_v.Prelude.{ℕ, ◌≡◌, refl, true, false, List, [], ◌∷◌, arith}
use cobol_java_migrator_v.Prelude.Int.{pos, ◌≤ℤ◌}

abbrev start_at : ℕ → RoutingController
start_at p = record { slice_name = "posting"; canary_pct = pos p }

abbrev history : List Call
history = flips (pos 25) true ∷ flips (pos 150) true ∷ resets ∷ []

abbrev ungated : List Call
ungated = flips (pos 25) false ∷ resets ∷ flips (pos 5) false ∷ []

run_ungated_example :
    ((run (start_at 0) ungated).canary_pct ≤ℤ (start_at 0).canary_pct)
    × ((start_at 0).canary_pct ≡ pos 0
        → route (λ key. 0 ∷ []) (run (start_at 0) ungated) "acct-1" ≡ legacy)
run_ungated_example =
    run_ungated (λ key. 0 ∷ []) (start_at 0) ungated "acct-1" (refl, (tt, (refl, tt))) (omega arith)
