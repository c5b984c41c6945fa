-- ===== src/Cost/Verifier/Overshoot.antt =====
-- How far the charges of one verifier can pass the caps.
mod Examples
use cobol_java_migrator_v.Prelude.{
  ℕ, ◌+◌, ◌≤◌, ◌<◌, ◌≡◌, refl, true, false, ◌||◌, none, some, arith, leb, List, [], ◌∷◌, is_err, ok,
  err, Result, All, Bool-cases, inl, inr,
}
use cobol_java_migrator_v.Prelude.Int.{ℤ, pos_part}
use cobol_java_migrator_v.Cost.Policy.{
  Key, TokenUsage, CostLedger, CostError, cap, spent, record_usage, check,
}
use cobol_java_migrator_v.Cost.Policy.Spending.{
  cap-record_usage, spent-check, cap-check, check_raises, spent-record_usage_run,
  spent-record_usage_workspace,
}
use cobol_java_migrator_v.Cost.Verifier.{CostVerifier, ApprovalRequest, settle, charge}

charge_all : List (TokenUsage × ℤ) → CostVerifier → CostVerifier
charge_all [] v = v
charge_all ((t, c) ∷ cs) v = charge_all cs (charge t c v).1

abbrev run_key : CostVerifier → Key
run_key v = (v.workspace_id, some v.run_id)

abbrev ws_key : CostVerifier → Key
ws_key v = (v.workspace_id, none)

-- Under both caps until the abort, and never more than `m` above either.
record IsWithin (m : ℕ) (v : CostVerifier) : Type 0 where
  pub open_run : v.aborted ≡ false → spent (run_key v) v.policy < cap (run_key v) v.policy
  pub open_ws : v.aborted ≡ false → spent (ws_key v) v.policy < cap (ws_key v) v.policy
  pub run_bound : spent (run_key v) v.policy ≤ cap (run_key v) v.policy + m
  pub ws_bound : spent (ws_key v) v.policy ≤ cap (ws_key v) v.policy + m

module _ (m : ℕ) (v : CostVerifier) (c : ℤ) (before : CostLedger) where
  -- What the check after a charge may leave behind.
  record Checked (p : Result CostError (Unit {0}) × CostLedger) : Type 0 where
    verdict : is_err p.0 ≡ (
        leb (cap (run_key v) before) (spent (run_key v) before)
        || leb (cap (ws_key v) before) (spent (ws_key v) before))
    same_spent : (j : Key) → spent j p.1 ≡ spent j before
    same_cap : (j : Key) → cap j p.1 ≡ cap j before

  settle-IsWithin :
      (p : Result CostError (Unit {0}) × CostLedger)
      → Checked p
      → v.aborted ≡ false
      → spent (run_key v) before ≤ cap (run_key v) before + m
      → spent (ws_key v) before ≤ cap (ws_key v) before + m
      → IsWithin m (settle v c p).1
  unfolding settle
  settle-IsWithin (ok done, l) k live a b = ground (
    arith,
    k.verdict,
    k.same_spent (run_key v),
    k.same_spent (ws_key v),
    k.same_cap (run_key v),
    k.same_cap (ws_key v),
  )
  settle-IsWithin (err e, l) k live a b = ground (
    arith,
    k.same_spent (run_key v),
    k.same_spent (ws_key v),
    k.same_cap (run_key v),
    k.same_cap (ws_key v),
  )

check-Checked :
    (m : ℕ) (v : CostVerifier) (c : ℤ) (l : CostLedger)
    → Checked m v c l (check v.workspace_id v.run_id l)
check-Checked m v c l = record {
  verdict = check_raises v.workspace_id v.run_id l;
  same_spent = λ j. spent-check v.workspace_id v.run_id j l;
  same_cap = λ j. cap-check v.workspace_id v.run_id j l;
}

module _ (m : ℕ) (v : CostVerifier) (c : ℤ) (t : TokenUsage) (small : pos_part c ≤ m)
    (h : IsWithin m v) (live : v.aborted ≡ false) where
  abbrev charged : CostLedger
  charged = record_usage v.workspace_id v.run_id t c v.policy

  run_side : spent (run_key v) charged ≤ cap (run_key v) charged + m
  run_side = omega (
    arith,
    spent-record_usage_run v.workspace_id v.run_id c t v.policy,
    cap-record_usage v.workspace_id v.run_id (run_key v) c t v.policy,
    h.open_run live,
  )

  ws_side : spent (ws_key v) charged ≤ cap (ws_key v) charged + m
  ws_side = omega (
    arith,
    spent-record_usage_workspace v.workspace_id v.run_id c t v.policy,
    cap-record_usage v.workspace_id v.run_id (ws_key v) c t v.policy,
    h.open_ws live,
  )

pub charge_live :
    (v : CostVerifier) (t : TokenUsage) (c : ℤ)
    → v.aborted ≡ false
    → charge t c v
      ≡ settle v c
          (check v.workspace_id v.run_id (record_usage v.workspace_id v.run_id t c v.policy))
unfolding charge
charge_live v t c h = ground arith

pub charge_aborted :
    (v : CostVerifier) (t : TokenUsage) (c : ℤ) → v.aborted ≡ true → (charge t c v).1 ≡ v
unfolding charge
charge_aborted v t c h = ground arith

pub charge_aborted_raises :
    (v : CostVerifier) (t : TokenUsage) (c : ℤ) → v.aborted ≡ true → is_err (charge t c v).0 ≡ true
unfolding charge
charge_aborted_raises v t c h = ground arith

charge-IsWithin :
    (m : ℕ) (v : CostVerifier) (c : ℤ) (t : TokenUsage)
    → pos_part c ≤ m
    → IsWithin m v
    → IsWithin m (charge t c v).1
charge-IsWithin m v c t small h = elim (Bool-cases v.aborted) [
  | inl done ↦ rw (charge_aborted v t c done) h
  | inr live ↦
      let l = record_usage v.workspace_id v.run_id t c v.policy in
      rw (charge_live v t c live) (
        settle-IsWithin m v c l _ (check-Checked m v c l) live (run_side m v c t small h live)
          (ws_side m v c t small h live))
]

abbrev AtMost : ℕ → TokenUsage × ℤ → Type 0
AtMost m (t, c) = pos_part c ≤ m

-- From a verifier below both caps, whatever it is charged in amounts of at most `m`, what is
-- recorded for its run and for its workspace never passes the cap by more than `m`: the caps bound
-- all but the last charge.
charge_all-IsWithin :
    (m : ℕ) (v : CostVerifier) (cs : List (TokenUsage × ℤ))
    → All (AtMost m) cs
    → IsWithin m v
    → IsWithin m (charge_all cs v)
unfolding charge_all
charge_all-IsWithin m v [] small h = h
charge_all-IsWithin m v ((t, c) ∷ cs) small h =
    charge_all-IsWithin m (charge t c v).1 cs small.1 (charge-IsWithin m v c t small.0 h)

settle_aborts :
    (v : CostVerifier) (c : ℤ) (p : Result CostError (Unit {0}) × CostLedger) (r : ApprovalRequest)
    → (settle v c p).0 ≡ ok (some r)
    → (settle v c p).1.aborted ≡ true
unfolding settle
settle_aborts v c (ok done, l) r e = cc
settle_aborts v c (err x, l) r e = refl

charge_all_aborted :
    (v : CostVerifier) (cs : List (TokenUsage × ℤ)) → v.aborted ≡ true → charge_all cs v ≡ v
unfolding charge_all
charge_all_aborted v [] h = refl
charge_all_aborted v ((t, c) ∷ cs) h = rw (charge_aborted v t c h) (charge_all_aborted v cs h)

charge_aborts :
    (v : CostVerifier) (t : TokenUsage) (c : ℤ) (r : ApprovalRequest)
    → (charge t c v).0 ≡ ok (some r)
    → (charge t c v).1.aborted ≡ true
charge_aborts v t c r e = elim (Bool-cases v.aborted) [
  | inl done ↦ rw (charge_aborted v t c done) done
  | inr live ↦
      rw (charge_live v t c live) (settle_aborts v c _ r (rw (charge_live v t c live) at e))
]

-- Once a charge has handed out an approval request, every further charge raises, and no sequence of
-- them changes the verifier or its ledger: nothing more is recorded.
charge_after_request :
    (v : CostVerifier) (t u : TokenUsage) (c d : ℤ) (r : ApprovalRequest)
    (cs : List (TokenUsage × ℤ))
    → (charge t c v).0 ≡ ok (some r)
    → (is_err (charge u d (charge t c v).1).0 ≡ true)
      × (charge_all cs (charge t c v).1 ≡ (charge t c v).1)
charge_after_request v t u c d r cs e =
    let stopped = charge_aborts v t c r e in
    (
      charge_aborted_raises (charge t c v).1 u d stopped,
      charge_all_aborted (charge t c v).1 cs stopped,
    )
