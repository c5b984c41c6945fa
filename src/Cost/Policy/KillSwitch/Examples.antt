-- ===== src/Cost/Policy/KillSwitch/Examples.antt =====
-- Concrete inputs for the theorems of KillSwitch.
use cobol_java_migrator_v.Cost.Policy.{
  CostLedger, cap, spent, trip, run_over, ws_over, check, is_killed,
}
use cobol_java_migrator_v.Cost.Policy.KillSwitch.{Call, records, checks, run, check_kills_for_good}
use cobol_java_migrator_v.Prelude.{◌≡◌, refl, true, none, some, List, [], ◌∷◌, is_err}
use cobol_java_migrator_v.Prelude.Dict.{get}
use cobol_java_migrator_v.Prelude.Int.{pos}
use cobol_java_migrator_v.Prelude.{string_eq}

abbrev full_run : CostLedger
full_run = record {
  caps = (("w", none), 100) ∷ (("w", some "a"), 10) ∷ (("w", some "b"), 10) ∷ [];
  spending = (("w", some "a"), 10) ∷ (("w", none), 10) ∷ [];
  tokens = [];
  kills = [];
}

abbrev later : List Call
later = records "w" "b" [] (pos 7) ∷ checks "w" "b" ∷ []

raised : is_err (check "w" "a" full_run).0 ≡ true
unfolding check run_over ws_over trip cap spent get
raised = refl

check_kills_for_good_example : is_killed "w" "a" (run (check "w" "a" full_run).1 later) ≡ true
check_kills_for_good_example = check_kills_for_good "w" "a" full_run later raised
