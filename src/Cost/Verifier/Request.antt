-- ===== src/Cost/Verifier/Request.antt =====
-- What the approval request says of the breach that it reports.
use cobol_java_migrator_v.Prelude.{
  ◌-◌, ◌≡◌, ◌∙◌, String, true, none, some, arith, leb→le, ok, err, Result, Bool-cases, inl, inr,
  is_err,
}
use cobol_java_migrator_v.Prelude.Int.{ℤ}
use cobol_java_migrator_v.Cost.Policy.{
  TokenUsage, CostLedger, CostError, cap, spent, record_usage, check, remaining_usd, ws_over,
}
use cobol_java_migrator_v.Cost.Policy.Spending.{spent-check, cap-check}
use cobol_java_migrator_v.Cost.Verifier.{CostVerifier, ApprovalRequest, settle, charge}
use cobol_java_migrator_v.Cost.Verifier.Overshoot.{charge_live, charge_aborted_raises}

settle_cap :
    (v : CostVerifier) (c : ℤ) (p : Result CostError (Unit {0}) × CostLedger) (r : ApprovalRequest)
    → (settle v c p).0 ≡ ok (some r)
    → (r.cap_usd ≡ remaining_usd v.workspace_id p.1) × (r.spent_usd ≡ c)
unfolding settle
settle_cap v c (ok done, l) r e = cc
settle_cap v c (err x, l) r e = ground arith

remaining-check :
    (w r : String) (l : CostLedger)
    → remaining_usd w (check w r l).1 ≡ cap (w, none) l - spent (w, none) l
unfolding remaining_usd
remaining-check w r l = rw (spent-check w r (w, none) l, cap-check w r (w, none) l)

ws_over_zero :
    (w : String) (l : CostLedger) → ws_over w l ≡ true → cap (w, none) l - spent (w, none) l ≡ 0
unfolding ws_over
ws_over_zero w l over = omega (arith, leb→le _ _ over)

raised_ok : {E : Type 0} {A : Type 0} (x : Result E A) (a : A) → is_err x ≡ true → x ≡ ok a → ⊥
raised_ok (ok b) a h i = cc
raised_ok (err b) a h i = cc

-- A request's `spent_usd` is the last charge alone, and its `cap_usd` is what the workspace's cap
-- leaves after that charge: 0 where the workspace's cap was reached.
charge_request :
    (v : CostVerifier) (t : TokenUsage) (c : ℤ) (r : ApprovalRequest)
    → (charge t c v).0 ≡ ok (some r)
    → let l = record_usage v.workspace_id v.run_id t c v.policy in
      (r.spent_usd ≡ c)
      × (r.cap_usd ≡ cap (v.workspace_id, none) l - spent (v.workspace_id, none) l)
      × (ws_over v.workspace_id l ≡ true → r.cap_usd ≡ 0)
charge_request v t c r e = elim (Bool-cases v.aborted) [
  | inl done ↦ absurd (raised_ok (charge t c v).0 (some r) (charge_aborted_raises v t c done) e)
  | inr live ↦
      let l = record_usage v.workspace_id v.run_id t c v.policy in
      let (left, last) = settle_cap v c _ r (rw (charge_live v t c live) at e) in
      let value = left ∙ remaining-check v.workspace_id v.run_id l in
      (last, value, λ over. value ∙ ws_over_zero v.workspace_id l over)
]
