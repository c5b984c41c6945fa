-- ===== src/Deploy/Routing/Gating.antt =====
-- What a history of calls can do to the canary's share without the deploy gate.
mod Examples
use cobol_java_migrator_v.Prelude.{
  ℕ, ◌≡◌, String, Bool, false, List, [], ◌∷◌, arith, Result, ok, err, All,
}
use cobol_java_migrator_v.Prelude.Int.{ℤ, pos, ◌≤ℤ◌}
use cobol_java_migrator_v.Deploy.Routing.{
  legacy, RoutingController, RoutingError, flip, reset_to_legacy, route, serve,
}

pub data Call : Type 0 where
  flips : (canary_pct : ℤ) (deploy_gate_passed : Bool) → Call
  resets : Call

-- A call that raises leaves the controller as it was.
abbrev after : RoutingController → Result RoutingError RoutingController → RoutingController
after c (ok d) = d
after c (err e) = c

pub step : RoutingController → Call → RoutingController
step c (flips p gate) = after c (flip p gate c)
step c resets = reset_to_legacy c

pub run : RoutingController → List Call → RoutingController
run c [] = c
run c (x ∷ xs) = run (step c x) xs

abbrev IsUngated : Call → Type 0
IsUngated (flips p gate) = gate ≡ false
IsUngated resets = Unit

step-InRange :
    (c : RoutingController) (x : Call)
    → (pos 0 ≤ℤ c.canary_pct) × (c.canary_pct ≤ℤ pos 100)
    → (pos 0 ≤ℤ (step c x).canary_pct) × ((step c x).canary_pct ≤ℤ pos 100)
unfolding step flip reset_to_legacy
step-InRange c (flips p gate) h = ground arith
step-InRange c resets h = (omega arith, omega arith)

-- From a share between 0 and 100, every history of flips and resets, those that raise included, ends
-- between 0 and 100.
run-InRange :
    (c : RoutingController) (xs : List Call)
    → (pos 0 ≤ℤ c.canary_pct) × (c.canary_pct ≤ℤ pos 100)
    → (pos 0 ≤ℤ (run c xs).canary_pct) × ((run c xs).canary_pct ≤ℤ pos 100)
unfolding run
run-InRange c [] h = h
run-InRange c (x ∷ xs) h = run-InRange (step c x) xs (step-InRange c x h)

step-le :
    (c : RoutingController) (x : Call)
    → IsUngated x
    → pos 0 ≤ℤ c.canary_pct
    → ((step c x).canary_pct ≤ℤ c.canary_pct) × (pos 0 ≤ℤ (step c x).canary_pct)
unfolding step flip reset_to_legacy
step-le c (flips p gate) u h = ground arith
step-le c resets u h = (omega arith, omega arith)

run-le :
    (c : RoutingController) (xs : List Call)
    → All IsUngated xs
    → pos 0 ≤ℤ c.canary_pct
    → ((run c xs).canary_pct ≤ℤ c.canary_pct) × (pos 0 ≤ℤ (run c xs).canary_pct)
unfolding run
run-le c [] u h = (omega arith, h)
run-le c (x ∷ xs) u h =
    let first = step-le c x u.0 h in
    let rest = run-le (step c x) xs u.1 first.1 in (omega (arith, first.0, rest.0), rest.1)

serve-legacy : (p : ℤ) (b : ℕ) → p ≤ℤ pos 0 → serve p b ≡ legacy
unfolding serve
serve-legacy p b h = ground arith

from_zero : (p q : ℤ) → p ≤ℤ q → q ≡ pos 0 → p ≤ℤ pos 0
from_zero p q h e = ground arith

-- While no flip comes with a passed deploy gate, no history raises the canary's share above where it
-- began; so from full legacy every key stays on the legacy path.
run_ungated :
    (sha256 : String → List ℕ) (c : RoutingController) (xs : List Call) (key : String)
    → All IsUngated xs
    → pos 0 ≤ℤ c.canary_pct
    → ((run c xs).canary_pct ≤ℤ c.canary_pct)
      × (c.canary_pct ≡ pos 0 → route sha256 (run c xs) key ≡ legacy)
unfolding route
run_ungated sha256 c xs key u h =
    let below = (run-le c xs u h).0 in
    (below, λ e. serve-legacy _ _ (from_zero (run c xs).canary_pct c.canary_pct below e))
