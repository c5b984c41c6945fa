-- ===== src/Deploy/Rollback.antt =====
-- deploy/rollback.py. A rate is compared with its threshold, in millionths, by cross-multiplication:
-- exact where the source divides floats.
use cobol_java_migrator_v.Prelude.{
  ℕ, ◌*◌, ◌<◌, ◌≡◌, String, Bool, ◌&&◌, Option, none, some, if◌then◌else◌, ltb, arith,
}
use cobol_java_migrator_v.Prelude.Int.{ℤ, pos}
use cobol_java_migrator_v.Deploy.Routing.{RoutingController, reset_to_legacy}

pub record CanaryHealth : Type 0 where
  pub requests : ℕ
  pub errors : ℕ
  pub divergences : ℕ

-- count / requests > limit, with the rate of no requests 0.
rate_above : ℕ → ℕ → ℕ → Bool
rate_above count requests limit = ltb 0 requests && ltb (limit * requests) (count * 1_000_000)

pub data Reason : Type 0 where
  equivalence_divergence error_rate : Reason

pub record RollbackEvent : Type 0 where
  pub workspace_id : String
  pub slice_name : String
  pub reason : Reason
  pub from_canary_pct : ℤ
  pub to_canary_pct : ℤ

pub record RollbackGuard : Type 0 where
  pub workspace_id : String
  pub slice_name : String
  pub max_error_rate : ℕ
  pub max_divergence_rate : ℕ

default_guard : String → String → RollbackGuard
default_guard workspace_id slice_name = record {
  workspace_id = workspace_id;
  slice_name = slice_name;
  max_error_rate = 10_000;
  max_divergence_rate = 0;
}

pub breach : RollbackGuard → CanaryHealth → Option Reason
breach g h =
    if rate_above h.divergences h.requests g.max_divergence_rate
    then some equivalence_divergence
    else if rate_above h.errors h.requests g.max_error_rate
    then some error_rate
    else none

unfoldable pub observe :
    RollbackGuard → CanaryHealth → RoutingController → Option RollbackEvent × RoutingController
observe g h c = elim (breach g h) [
  | none ↦ (none, c)
  | some reason ↦ (
    some (record {
      workspace_id = g.workspace_id;
      slice_name = g.slice_name;
      reason = reason;
      from_canary_pct = c.canary_pct;
      to_canary_pct = pos 0;
    }),
    reset_to_legacy c,
  )
]

-- With the default guard one divergence in any number of served requests rolls back, whatever the
-- errors: the share becomes 0, and the event names the divergence and the share that it ended.
one_divergence_rolls_back :
    (w s : String) (h : CanaryHealth) (c : RoutingController)
    → 0 < h.requests
    → 0 < h.divergences
    → ((observe (default_guard w s) h c).1.canary_pct ≡ pos 0)
      × ((observe (default_guard w s) h c).0
          ≡ some (record {
            workspace_id = w;
            slice_name = s;
            reason = equivalence_divergence;
            from_canary_pct = c.canary_pct;
            to_canary_pct = pos 0;
          }))
unfolding observe breach rate_above default_guard reset_to_legacy
one_divergence_rolls_back w s h c served diverged = ground arith
