-- ===== src/Traceability.antt =====
-- The share of the program that a requirements document covers
-- (src/cobol_modernizer/traceability/coverage.py). The rows of the graph query are an argument; a
-- float ratio is written as the fraction that is divided.
mod Coverage
use cobol_java_migrator_v.Prelude.{
  ℕ, zero, suc, String, Option, none, some, not, ◌||◌, List, [], ◌∷◌, ◌++◌, ◌==◌, string_eq, length,
  keep_if, contains, if◌then◌else◌,
}
use cobol_java_migrator_v.Prelude.Dict.{Dict, keys, values}

pub record Fraction : Type 0 where
  pub numerator : ℕ
  pub denominator : ℕ

pub record LogicCoverageReport : Type 0 where
  pub repo_slug : String
  pub total_refs : ℕ
  pub covered_refs : List String
  pub uncovered_refs : List String
  pub exclusions : Dict String String
  pub coverage_ratio : Fraction

-- A row without a ref, or with an empty one, is left out.
unfoldable pub all_graph_refs : List (Option String) → List String
all_graph_refs [] = []
all_graph_refs (none ∷ rows) = all_graph_refs rows
all_graph_refs (some ref ∷ rows) =
    let rest = all_graph_refs rows in if ref == "" then rest else ref ∷ rest

-- The two nested loops over the values of the map, with the refs that were seen.
unfoldable pub covered_from : List String → List String → List String
covered_from seen [] = []
covered_from seen (ref ∷ refs) =
    let skips = ref == "" || contains ref seen in
    let rest = covered_from (if skips then seen else ref ∷ seen) refs in
    if skips then rest else ref ∷ rest

unfoldable pub all_values : List (List String) → List String
all_values [] = []
all_values (refs ∷ more) = refs ++ all_values more

unfoldable pub covered_refs : Dict String (List String) → List String
covered_refs evidence_map = covered_from [] (all_values (values evidence_map))

unfoldable pub eligible_refs : List (Option String) → Dict String String → List String
eligible_refs rows exclusions =
    keep_if (λ r. not (contains r (keys exclusions))) (all_graph_refs rows)

unfoldable pub ratio_of : ℕ → ℕ → Fraction
ratio_of covered zero = record { numerator = 1; denominator = 1 }
ratio_of covered (suc n) = record { numerator = covered; denominator = suc n }

unfoldable pub brd_logic_coverage :
    List (Option String)
    → String
    → Dict String (List String)
    → Dict String String
    → LogicCoverageReport
brd_logic_coverage rows slug evidence_map excluded =
    let eligible = eligible_refs rows excluded in
    let covered = keep_if (λ r. contains r eligible) (covered_refs evidence_map) in
    record {
      repo_slug = slug;
      total_refs = length eligible;
      covered_refs = covered;
      uncovered_refs = keep_if (λ r. not (contains r covered)) eligible;
      exclusions = excluded;
      coverage_ratio = ratio_of (length covered) (length eligible);
    }
