-- ===== src/Cost/Policy.antt =====
-- cost/policy.py. Amounts of money are whole micro-dollars in place of floats; a cost or a cap that
-- a caller hands in is an integer, since the code guards against negative ones.
pub mod Spending
pub mod KillSwitch
use Prim.Native.String.{◌++◌ as text_append}
use cobol_java_migrator_v.Prelude.{
  ℕ, ◌+◌, ◌-◌, String, Bool, true, false, ◌||◌, Option, none, some, [], ◌∷◌, leb, if◌then◌else◌,
  or_else, is_some, Result, ok, err, pair_eq, option_eq, string_eq,
}
use cobol_java_migrator_v.Prelude.Int.{ℤ, pos_part, is_neg}
use cobol_java_migrator_v.Prelude.Dict.{Dict, get, put}

-- (workspace_id, run_id), the workspace's own ledger under `none`.
abbrev pub Key : Type 0
Key = String × Option String

abbrev pub TokenUsage : Type 0
TokenUsage = Dict String ℤ

pub data CostError : Type 0 where
  value_error : CostError
  budget_exceeded : (message : String) → CostError

pub record CostLedger : Type 0 where
  pub caps : Dict Key ℕ
  pub spending : Dict Key ℕ
  pub tokens : Dict Key (Dict String ℕ)
  pub kills : Dict Key Bool

abbrev empty_ledger : CostLedger
empty_ledger = record { caps = []; spending = []; tokens = []; kills = [] }

pub set_cap : String → Option String → ℤ → CostLedger → Result CostError CostLedger
set_cap workspace_id run_id cap_usd l =
    if is_neg cap_usd
    then err value_error
    else ok (record l { caps = put (workspace_id, run_id) (pos_part cap_usd) l.caps })

unfoldable has_cap : Key → CostLedger → Bool
has_cap key l = is_some (get key l.caps)

-- An unconfigured cap is zero.
unfoldable pub cap : Key → CostLedger → ℕ
cap key l = or_else (get key l.caps) 0

unfoldable pub spent : Key → CostLedger → ℕ
spent key l = or_else (get key l.spending) 0

abbrev no_tokens : Dict String ℕ
no_tokens = ("input", 0) ∷ ("output", 0) ∷ ("cache_read", 0) ∷ ("cache_creation", 0) ∷ []

unfoldable pub add_tokens : TokenUsage → Dict String ℕ → Dict String ℕ
add_tokens [] bucket = bucket
add_tokens ((name, value) ∷ usage) bucket =
    add_tokens usage (put name (or_else (get name bucket) 0 + pos_part value) bucket)

unfoldable pub add : Key → ℤ → TokenUsage → CostLedger → CostLedger
add key cost_usd token_usage l = record l {
  spending = put key (or_else (get key l.spending) 0 + pos_part cost_usd) l.spending;
  tokens = put key (add_tokens token_usage (or_else (get key l.tokens) no_tokens)) l.tokens;
}

unfoldable pub trip : Key → CostLedger → CostLedger
trip key l = record l { kills = put key true l.kills }

pub killed : Key → CostLedger → Bool
killed key l = or_else (get key l.kills) false

unfoldable pub record_usage : String → String → TokenUsage → ℤ → CostLedger → CostLedger
record_usage workspace_id run_id token_usage cost_usd l =
    add (workspace_id, none) cost_usd token_usage
      (add (workspace_id, some run_id) cost_usd token_usage l)

-- The message of the exception, which the verifier reads.
unfoldable pub breach_message : Bool → String → String → String
breach_message run_over workspace_id run_id =
    text_append (if run_over then "run" else "workspace") (
      text_append " cap reached for workspace="
        (text_append workspace_id (text_append " run=" run_id)))

unfoldable pub run_over : String → String → CostLedger → Bool
run_over workspace_id run_id l =
    leb (cap (workspace_id, some run_id) l) (spent (workspace_id, some run_id) l)

unfoldable pub ws_over : String → CostLedger → Bool
ws_over workspace_id l = leb (cap (workspace_id, none) l) (spent (workspace_id, none) l)

unfoldable pub check : String → String → CostLedger → Result CostError (Unit {0}) × CostLedger
check workspace_id run_id l =
    if run_over workspace_id run_id l || ws_over workspace_id l
    then (
      err (budget_exceeded (breach_message (run_over workspace_id run_id l) workspace_id run_id)),
      (if ws_over workspace_id l
          then trip (workspace_id, none) (trip (workspace_id, some run_id) l)
          else trip (workspace_id, some run_id) l),
    )
    else (ok tt, l)

pub is_killed : String → String → CostLedger → Bool
is_killed workspace_id run_id l =
    killed (workspace_id, some run_id) l || killed (workspace_id, none) l

unfoldable pub remaining_usd : String → CostLedger → ℕ
remaining_usd workspace_id l = cap (workspace_id, none) l - spent (workspace_id, none) l
