-- ===== src/Cost/Verifier/Overshoot/Examples.antt =====
-- Concrete inputs for the theorems of Overshoot.
use cobol_java_migrator_v.Cost.Policy.{
  TokenUsage, budget_exceeded, cap, spent, add, trip, record_usage, breach_message, run_over,
  ws_over, check, remaining_usd,
}
use cobol_java_migrator_v.Cost.Verifier.{ApprovalRequest, CostVerifier, approval, settle, charge}
use cobol_java_migrator_v.Cost.Verifier.Overshoot.{
  charge_all, IsWithin, charge_all-IsWithin, charge_after_request,
}
use cobol_java_migrator_v.Prelude.{
  ◌≡◌, refl, true, false, none, some, List, [], ◌∷◌, arith, ok, is_err,
}
use cobol_java_migrator_v.Prelude.Dict.{get, put}
use cobol_java_migrator_v.Prelude.Int.{ℤ, pos}
use cobol_java_migrator_v.Prelude.{string_eq}

abbrev fresh : CostVerifier
fresh = record {
  policy = record {
    caps = (("w", none), 100) ∷ (("w", some "a"), 10) ∷ [];
    spending = [];
    tokens = [];
    kills = [];
  };
  workspace_id = "w";
  run_id = "a";
  aborted = false;
}

abbrev charges : List (TokenUsage × ℤ)
charges = ([], pos 6) ∷ ([], pos 8) ∷ ([], pos 5) ∷ []

fresh-IsWithin : IsWithin 8 fresh
unfolding cap spent get
fresh-IsWithin = record {
  open_run = λ h. omega arith;
  open_ws = λ h. omega arith;
  run_bound = omega arith;
  ws_bound = omega arith;
}

charge_all-IsWithin_example : IsWithin 8 (charge_all charges fresh)
charge_all-IsWithin_example =
    charge_all-IsWithin 8 fresh charges (omega arith, (omega arith, (omega arith, tt)))
      fresh-IsWithin

abbrev asked : ApprovalRequest
asked =
    approval fresh (record_usage "w" "a" [] (pos 12) fresh.policy) (pos 12)
      (budget_exceeded (breach_message true "w" "a"))

handed_out : (charge [] (pos 12) fresh).0 ≡ ok (some asked)
unfolding charge settle check record_usage add run_over ws_over trip cap spent approval get put
    remaining_usd
handed_out = refl

charge_after_request_example :
    (is_err (charge [] (pos 1) (charge [] (pos 12) fresh).1).0 ≡ true)
    × (charge_all charges (charge [] (pos 12) fresh).1 ≡ (charge [] (pos 12) fresh).1)
charge_after_request_example =
    charge_after_request fresh [] [] (pos 12) (pos 1) asked charges handed_out
