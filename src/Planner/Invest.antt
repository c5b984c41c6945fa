-- ===== src/Planner/Invest.antt =====
-- The INVEST judgement of a story (src/cobol_modernizer/planner/invest.py).
mod Floor
use cobol_java_migrator_v.Prelude.{
  String, Bool, true, false, not, ◌&&◌, Option, List, [], ◌∷◌, ◌++◌, if◌then◌else◌, or_else, nat_eq,
  string_eq, pair_eq, option_eq, is_empty, keep_if, all, sorted, to_set,
}
use cobol_java_migrator_v.Prelude.Dict.{Dict}
use cobol_java_migrator_v.Prelude.Int.{ℤ, pos, leb_ℤ}

pub data Dim : Type 0 where
  independent : Dim
  negotiable : Dim
  valuable : Dim
  estimable : Dim
  small : Dim
  testable : Dim

abbrev pub dims : List Dim
dims = independent ∷ negotiable ∷ valuable ∷ estimable ∷ small ∷ testable ∷ []

pub record Judgement : Type 0 where
  pub invest : Dim → ℤ
  pub groundedness_failures : List String
  pub passed : Bool

-- [r for refs in evidence_map.values() for r in refs]
unfoldable pub refs_of : Dict String (List String) → List String
refs_of [] = []
refs_of ((k, refs) ∷ rest) = refs ++ refs_of rest

pub failures_in : (String → Bool) → List String → List String
failures_in is_known refs = sorted (to_set (keep_if (λ r. not (is_known r)) refs))

-- raw.get(d, 3), and the floor of an ungrounded story.
pub score : Bool → (Dim → Option ℤ) → Dim → ℤ
score ungrounded raw d =
    let given = or_else (raw d) (pos 3) in
    if ungrounded && has_floor d then (if leb_ℤ given (pos 2) then given else pos 2) else given
  where
    has_floor : Dim → Bool
    has_floor valuable = true
    has_floor estimable = true
    has_floor _ = false

pub judge_story : Dict String (List String) → (String → Bool) → (Dim → Option ℤ) → Judgement
judge_story evidence is_known raw =
    let failures = failures_in is_known (refs_of evidence) in
    let invest = score (not (is_empty failures)) raw in
    record {
      invest = invest;
      groundedness_failures = failures;
      passed = is_empty failures && all (λ d. leb_ℤ (pos 3) (invest d)) dims;
    }
