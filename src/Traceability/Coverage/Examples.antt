-- ===== src/Traceability/Coverage/Examples.antt =====
-- Concrete inputs for the theorems of Coverage.
use cobol_java_migrator_v.Prelude.{
  String, ◌≡◌, refl, not, ◌&&◌, ◌+◌, Option, some, none, List, [], ◌∷◌, string_eq, length, contains,
  IsUnique,
}
use cobol_java_migrator_v.Prelude.Dict.{Dict}
use cobol_java_migrator_v.Traceability.{eligible_refs, all_graph_refs, brd_logic_coverage}
use cobol_java_migrator_v.Traceability.Coverage.{is_evidenced, brd_logic_coverage-splits}

abbrev rows : List (Option String)
rows = some "ACCT" ∷ none ∷ some "POST" ∷ some "DEAD" ∷ some "MENU" ∷ []

abbrev evidence : Dict String (List String)
evidence =
    ("src/Acct.java", "ACCT" ∷ "" ∷ "GONE" ∷ []) ∷ ("src/Menu.java", "MENU" ∷ "ACCT" ∷ []) ∷ []

abbrev excluded : Dict String String
excluded = ("DEAD", "unreachable") ∷ []

once : IsUnique (eligible_refs rows excluded)
unfolding eligible_refs all_graph_refs
once = (refl, (refl, (refl, tt)))

brd_logic_coverage-splits_example :
    let report = brd_logic_coverage rows "bank" evidence excluded in
    let eligible = eligible_refs rows excluded in
    (length report.covered_refs + length report.uncovered_refs ≡ report.total_refs)
    × IsUnique report.covered_refs
    × ((r : String)
        → contains r report.covered_refs ≡ (is_evidenced evidence r && contains r eligible))
    × ((r : String)
        → contains r report.uncovered_refs ≡ (contains r eligible && not (is_evidenced evidence r)))
brd_logic_coverage-splits_example = brd_logic_coverage-splits rows "bank" evidence excluded once
