-- ===== src/Cost/Verifier.antt =====
-- cost/verifier.py: one run's charges under the caps, aborted at the first crossing.
pub mod Overshoot
pub mod Request
use Prim.Native.String.{◌++◌ as text_append}
use text.Mathlib.Text.{find?}
use cobol_java_migrator_v.Prelude.{
  ℕ, String, Bool, true, false, Option, none, some, if◌then◌else◌, is_some, Result, ok, err,
}
use cobol_java_migrator_v.Prelude.Int.{ℤ}
use cobol_java_migrator_v.Cost.Policy.{
  TokenUsage, CostLedger, CostError, value_error, budget_exceeded, record_usage, check,
  remaining_usd,
}

pub record ApprovalRequest : Type 0 where
  pub workspace_id : String
  pub run_id : String
  pub scope : String
  pub spent_usd : ℤ
  pub cap_usd : ℕ
  pub reason : String

pub record CostVerifier : Type 0 where
  pub policy : CostLedger
  pub workspace_id : String
  pub run_id : String
  pub aborted : Bool

unfoldable init : CostLedger → String → String → CostVerifier
init policy workspace_id run_id = record {
  policy = policy;
  workspace_id = workspace_id;
  run_id = run_id;
  aborted = false;
}

-- str(exc)
unfoldable message_of : CostError → String
message_of value_error = ""
message_of (budget_exceeded message) = message

approval : CostVerifier → CostLedger → ℤ → CostError → ApprovalRequest
approval v l cost_usd exc = record {
  workspace_id = v.workspace_id;
  run_id = v.run_id;
  scope = if is_some (find? (message_of exc) "workspace cap") then "workspace" else "run";
  spent_usd = cost_usd;
  cap_usd = remaining_usd v.workspace_id l;
  reason = message_of exc;
}

-- The `except` clause: the verdict of the check, and the ledger that the check left.
pub settle :
    CostVerifier
    → ℤ
    → Result CostError (Unit {0}) × CostLedger
    → Result CostError (Option ApprovalRequest) × CostVerifier
unfolding approval
settle v cost_usd (ok done, l) = (ok none, record v { policy = l })
settle v cost_usd (err exc, l) =
    (ok (some (approval v l cost_usd exc)), record v { policy = l; aborted = true })

pub charge :
    TokenUsage → ℤ → CostVerifier → Result CostError (Option ApprovalRequest) × CostVerifier
charge token_usage cost_usd v =
    if v.aborted
    then (
      err (
          budget_exceeded
            (text_append "run " (text_append v.run_id " already aborted pending approval"))),
      v,
    )
    else settle v cost_usd (
        check v.workspace_id v.run_id
          (record_usage v.workspace_id v.run_id token_usage cost_usd v.policy))
