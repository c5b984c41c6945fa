-- ===== src/Equivalence/Tolerance.antt =====
-- The tolerance rules and the comparison of a field (src/cobol_modernizer/equivalence/tolerance.py,
-- ebcdic.py normalize_display). A number is in units of the rule's scale.
use cobol_java_migrator_v.Prelude.{
  ℕ, String, Bool, true, ◌&&◌, Option, none, some, List, [], ◌∷◌, leb, eqb, if◌then◌else◌, or_else,
  Result, ok, err, ◌>>=◌, ◌==◌, nat_eq, string_eq, pair_eq, option_eq,
}
use cobol_java_migrator_v.Prelude.Int.{ℤ, ◌-ℤ◌, leb_ℤ, abs}

data Matcher : Type 0 where
  ignore : Matcher
  exact : Matcher
  numeric_scale : Matcher
  numeric_abs : Matcher
  date : Matcher
  other : String → Matcher

-- The tolerance in units of the scale, rounded down.
record Rule : Type 0 where
  pub field : String
  pub matcher : Matcher
  pub scale : ℕ
  pub tolerance : ℕ
  pub representation : String
  pub cobol_format : String
  pub java_format : String

record ToleranceRuleset : Type 0 where
  pub record_name : String
  pub default_matcher : Matcher
  pub rules : List Rule

unfoldable find_rule : String → List Rule → Option Rule
find_rule field [] = none
find_rule field (r ∷ rs) = if r.field == field then some r else find_rule field rs

unfoldable rule_for : ToleranceRuleset → String → Rule
rule_for rs field = or_else (find_rule field rs.rules) (record {
  field = field;
  matcher = rs.default_matcher;
  scale = 0;
  tolerance = 0;
  representation = "display";
  cobol_format = "";
  java_format = "";
})

-- The reason names the comparison that failed; it is none where the code gives "".
pub data Reason : Type 0 where
  exact_differs : Reason
  numeric_differs : Reason
  date_differs : Reason
  missing_in_candidate : Reason
  unexpected_in_candidate : Reason

pub record FieldResult : Type 0 where
  pub field : String
  pub ok_field : Bool
  pub reason : Option Reason

unfoldable judged : String → Bool → Reason → FieldResult
judged field ok_field why = record {
  field = field;
  ok_field = ok_field;
  reason = if ok_field then none else some why;
}

-- text.rstrip(" ") on both sides; _to_decimal of a golden value; Decimal of a candidate one,
-- quantized; date.fromisoformat, as a number of days; and the ValueError of an unknown matcher.
module _ {E : Type 0} (rstrip : String → String)
    (golden_number candidate_number : Rule → String → Result E ℤ) (parse_date : String → Result E ℕ)
    (unknown : String → E) where
  unfoldable compare_number :
      Rule → (ℤ → ℤ → Bool) → String → String → String → Result E FieldResult
  compare_number rule close name golden candidate = golden_number rule golden >>= λ g.
      candidate_number rule candidate >>= λ c. ok (judged name (close g c) numeric_differs)

  unfoldable same_number : ℤ → ℤ → Bool
  same_number g c = leb_ℤ g c && leb_ℤ c g

  unfoldable compare_field : ToleranceRuleset → String → String → String → Result E FieldResult
  compare_field rs name golden candidate =
      let rule = rule_for rs name in
      elim rule.matcher [
        | ignore ↦ ok (judged name true exact_differs)
        | exact ↦ ok (judged name (rstrip golden == rstrip candidate) exact_differs)
        | numeric_scale ↦ compare_number rule same_number name golden candidate
        | numeric_abs ↦
            compare_number rule (λ g c. leb (abs (g -ℤ c)) rule.tolerance) name golden candidate
        | date ↦ parse_date golden >>= λ g.
            parse_date candidate >>= λ c. ok (judged name (eqb g c) date_differs)
        | other m ↦ err (unknown m)
      ]
