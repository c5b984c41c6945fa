-- ===== src/Cost/Policy/KillSwitch.antt =====
-- The kill-switch of policy.py: what a history of calls by any runs can and cannot undo.
mod Examples
use cobol_java_migrator_v.Prelude.{
  ◌≤◌, ◌≡◌, ◌∙◌, ◌≢◌, refl, String, true, false, Option, none, some, arith, pair_eq, option_eq,
  string_eq, List, [], ◌∷◌, is_err, ok, err, Result, All,
}
use cobol_java_migrator_v.Prelude.Int.{ℤ}
use cobol_java_migrator_v.Cost.Policy.{
  Key, TokenUsage, CostLedger, CostError, cap, spent, killed, set_cap, record_usage, check,
  is_killed, ws_over, trip,
}
use cobol_java_migrator_v.Cost.Policy.Spending.{
  key_eq, spent-record_usage-le, cap-record_usage, killed-record_usage, killed-trip, spent-check,
  cap-check, killed-check, check_raises,
}

-- The calls that change a ledger, each with the workspace and run that make it.
pub data Call : Type 0 where
  sets_cap : (w : String) (r : Option String) (cap_usd : ℤ) → Call
  records : (w r : String) (usage : TokenUsage) (cost_usd : ℤ) → Call
  checks : (w r : String) → Call

abbrev after_set : CostLedger → Result CostError CostLedger → CostLedger
after_set l (ok l') = l'
after_set l (err e) = l

pub step : CostLedger → Call → CostLedger
step l (sets_cap w r c) = after_set l (set_cap w r c l)
step l (records w r t c) = record_usage w r t c l
step l (checks w r) = (check w r l).1

pub run : CostLedger → List Call → CostLedger
run l [] = l
run l (c ∷ cs) = run (step l c) cs

-- A call that leaves the caps alone.
abbrev IsSpend : Call → Type 0
IsSpend (sets_cap w r c) = ⊥
IsSpend (records w r t c) = Unit
IsSpend (checks w r) = Unit

killed-step : (j : Key) (l : CostLedger) (c : Call) → killed j l ≡ true → killed j (step l c) ≡ true
unfolding step
killed-step j l (sets_cap w r c) h = unfold set_cap killed in ground arith
killed-step j l (records w r t c) h = killed-record_usage w r j c t l ∙ h
killed-step j l (checks w r) h = killed-check w r j l h

killed-run :
    (j : Key) (l : CostLedger) (cs : List Call) → killed j l ≡ true → killed j (run l cs) ≡ true
unfolding run
killed-run j l [] h = h
killed-run j l (c ∷ cs) h = killed-run j (step l c) cs (killed-step j l c h)

check-trips-run :
    (w r : String) (l : CostLedger)
    → is_err (check w r l).0 ≡ true
    → killed (w, some r) (check w r l).1 ≡ true
unfolding check
check-trips-run w r l h = ground (
  arith,
  killed-trip (w, some r) (w, some r) l,
  killed-trip (w, none) (w, some r) (trip (w, some r) l),
  key_eq.beq_iff (w, some r) (w, some r),
)

-- Once a check of a run raised, the run is killed after any further calls of the ledger, by any
-- run, new caps included.
check_kills_for_good :
    (w r : String) (l : CostLedger) (cs : List Call)
    → is_err (check w r l).0 ≡ true
    → is_killed w r (run (check w r l).1 cs) ≡ true
unfolding is_killed
check_kills_for_good w r l cs h =
    ground (arith, killed-run (w, some r) (check w r l).1 cs (check-trips-run w r l h))

-- A step that sets no cap takes no headroom back.
record Tighter (l m : CostLedger) : Type 0 where
  caps_stay : (j : Key) → cap j m ≡ cap j l
  spent_grows : (j : Key) → spent j l ≤ spent j m

step-Tighter : (l : CostLedger) (c : Call) → IsSpend c → Tighter l (step l c)
unfolding step
step-Tighter l (sets_cap w r c) h = absurd h
step-Tighter l (records w r t c) h = record {
  caps_stay = λ j. cap-record_usage w r j c t l;
  spent_grows = λ j. spent-record_usage-le w r j c t l;
}
step-Tighter l (checks w r) h = record {
  caps_stay = λ j. cap-check w r j l;
  spent_grows = λ j. omega (arith, spent-check w r j l);
}

run-Tighter : (l : CostLedger) (cs : List Call) → All IsSpend cs → Tighter l (run l cs)
unfolding run
run-Tighter l [] h = record { caps_stay = λ j. refl; spent_grows = λ j. omega arith }
run-Tighter l (c ∷ cs) h =
    let first = step-Tighter l c h.0 in
    let rest = run-Tighter (step l c) cs h.1 in
    record {
      caps_stay = λ j. rest.caps_stay j ∙ first.caps_stay j;
      spent_grows = λ j. omega (arith, rest.spent_grows j, first.spent_grows j);
    }

-- Once a check of a run raised, it raises after any further calls by any runs of the same ledger
-- that record usage or check, as long as no cap is set anew.
check_raises_for_good :
    (w r : String) (l : CostLedger) (cs : List Call)
    → All IsSpend cs
    → is_err (check w r l).0 ≡ true
    → is_err (check w r (run l cs)).0 ≡ true
check_raises_for_good w r l cs h raised =
    let t = run-Tighter l cs h in
    ground (
      arith,
      check_raises w r l,
      check_raises w r (run l cs),
      t.caps_stay (w, some r),
      t.caps_stay (w, none),
      t.spent_grows (w, some r),
      t.spent_grows (w, none),
    )

-- A check that finds the workspace's cap reached kills every run of the workspace; one that finds
-- only its own run's cap reached leaves every other run as it was.
check_siblings :
    (w r s : String) (l : CostLedger)
    → (ws_over w l ≡ true → is_killed w s (check w r l).1 ≡ true)
      × (ws_over w l ≡ false → r ≢ s → is_killed w s (check w r l).1 ≡ is_killed w s l)
unfolding check is_killed
check_siblings w r s l = (
  λ over. ground (
    arith,
    killed-trip (w, none) (w, none) (trip (w, some r) l),
    key_eq.beq_iff (w, none) (w, none),
  ),
  λ under other. ground (
    arith,
    killed-trip (w, some r) (w, some s) l,
    killed-trip (w, some r) (w, none) l,
    key_eq.beq_iff (w, some r) (w, some s),
    key_eq.beq_iff (w, some r) (w, none),
  ),
)
