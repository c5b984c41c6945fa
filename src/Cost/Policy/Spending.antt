-- ===== src/Cost/Policy/Spending.antt =====
-- What each operation of the ledger does to the amounts under every key.
use cobol_java_migrator_v.Prelude.{
  ◌+◌, ◌≤◌, ◌≡◌, refl, String, true, ◌||◌, none, some, arith, if◌then◌else◌, pair_eq, option_eq,
  string_eq, leb, or_else, Eq, ◌∙◌, is_err,
}
use cobol_java_migrator_v.Prelude.Int.{ℤ, pos_part}
use cobol_java_migrator_v.Prelude.Dict.{get, get-put}
use cobol_java_migrator_v.Cost.Policy.{
  Key, TokenUsage, CostLedger, cap, spent, add, trip, killed, record_usage, check, run_over,
  ws_over,
}

abbrev pub key_eq : Eq Key
key_eq = pair_eq

module _ (k j : Key) (c : ℤ) (t : TokenUsage) (l : CostLedger) where
  spent-add : spent j (add k c t l) ≡ (if key_eq.beq k j then spent j l + pos_part c else spent j l)
  unfolding spent add
  spent-add = ground (
    arith,
    get-put k j (or_else (get k l.spending) 0 + pos_part c) l.spending,
    key_eq.beq_iff k j,
  )

  spent-add-le : spent j l ≤ spent j (add k c t l)
  spent-add-le = ground (arith, spent-add)

  spent-add_le : spent j (add k c t l) ≤ spent j l + pos_part c
  spent-add_le = ground (arith, spent-add)

  cap-add : cap j (add k c t l) ≡ cap j l
  unfolding cap add
  cap-add = refl

  killed-add : killed j (add k c t l) ≡ killed j l
  unfolding killed add
  killed-add = refl

module _ (w r : String) (j : Key) (c : ℤ) (t : TokenUsage) (l : CostLedger) where
  pub spent-record_usage-le : spent j l ≤ spent j (record_usage w r t c l)
  unfolding record_usage
  spent-record_usage-le = omega (
    arith,
    spent-add-le (w, some r) j c t l,
    spent-add-le (w, none) j c t (add (w, some r) c t l),
  )

  pub cap-record_usage : cap j (record_usage w r t c l) ≡ cap j l
  unfolding record_usage
  cap-record_usage = cap-add (w, none) j c t (add (w, some r) c t l) ∙ cap-add (w, some r) j c t l

  pub killed-record_usage : killed j (record_usage w r t c l) ≡ killed j l
  unfolding record_usage
  killed-record_usage =
      killed-add (w, none) j c t (add (w, some r) c t l) ∙ killed-add (w, some r) j c t l

-- The workspace's amount moves by the clamped cost, once.
pub spent-record_usage_workspace :
    (w r : String) (c : ℤ) (t : TokenUsage) (l : CostLedger)
    → spent (w, none) (record_usage w r t c l) ≡ spent (w, none) l + pos_part c
unfolding record_usage
spent-record_usage_workspace w r c t l = ground (
  arith,
  spent-add (w, some r) (w, none) c t l,
  spent-add (w, none) (w, none) c t (add (w, some r) c t l),
  key_eq.beq_iff (w, none) (w, none),
)

pub spent-record_usage_run :
    (w r : String) (c : ℤ) (t : TokenUsage) (l : CostLedger)
    → spent (w, some r) (record_usage w r t c l) ≡ spent (w, some r) l + pos_part c
unfolding record_usage
spent-record_usage_run w r c t l = ground (
  arith,
  spent-add (w, some r) (w, some r) c t l,
  spent-add (w, none) (w, some r) c t (add (w, some r) c t l),
  key_eq.beq_iff (w, some r) (w, some r),
)

pub killed-trip :
    (k j : Key) (l : CostLedger)
    → killed j (trip k l) ≡ (if key_eq.beq k j then true else killed j l)
unfolding killed trip
killed-trip k j l = ground (arith, get-put k j true l.kills, key_eq.beq_iff k j)

spent-trip : (k j : Key) (l : CostLedger) → spent j (trip k l) ≡ spent j l
unfolding spent trip
spent-trip k j l = refl

cap-trip : (k j : Key) (l : CostLedger) → cap j (trip k l) ≡ cap j l
unfolding cap trip
cap-trip k j l = refl

-- A check moves no amount and no cap.
pub spent-check : (w r : String) (j : Key) (l : CostLedger) → spent j (check w r l).1 ≡ spent j l
unfolding check
spent-check w r j l =
    ground (arith, spent-trip (w, some r) j l, spent-trip (w, none) j (trip (w, some r) l))

pub cap-check : (w r : String) (j : Key) (l : CostLedger) → cap j (check w r l).1 ≡ cap j l
unfolding check
cap-check w r j l =
    ground (arith, cap-trip (w, some r) j l, cap-trip (w, none) j (trip (w, some r) l))

-- What a check trips stays tripped, and nothing that was tripped is reset.
pub killed-check :
    (w r : String) (j : Key) (l : CostLedger) → killed j l ≡ true → killed j (check w r l).1 ≡ true
unfolding check
killed-check w r j l h =
    ground (arith, killed-trip (w, some r) j l, killed-trip (w, none) j (trip (w, some r) l))

-- When a check raises.
pub check_raises :
    (w r : String) (l : CostLedger)
    → is_err (check w r l).0
      ≡ (leb (cap (w, some r) l) (spent (w, some r) l) || leb (cap (w, none) l) (spent (w, none) l))
unfolding check run_over ws_over
check_raises w r l = ground arith
