-- ===== src/Traceability/Coverage.antt =====
-- What a coverage report says of the refs of the graph.
mod Examples
use cobol_java_migrator_v.Prelude.{
  suc, ◌+◌, ◌≤◌, String, Bool, true, false, not, ◌&&◌, ◌||◌, ◌≡◌, refl, Option, List, [], ◌∷◌, ◌==◌,
  inl, inr, subst, arith, Bool-cases, string_eq, length, keep_if, contains, IsUnique, if◌then◌else◌,
}
use cobol_java_migrator_v.Prelude.Dict.{Dict, values}
use cobol_java_migrator_v.Traceability.{
  covered_from, covered_refs, all_values, eligible_refs, brd_logic_coverage, LogicCoverageReport,
}

contains-keep_if :
    (p : String → Bool) (a : String) (xs : List String)
    → contains a (keep_if p xs) ≡ (p a && contains a xs)
contains-keep_if p a [] = ground arith
contains-keep_if p a (x ∷ xs) = elim (Bool-cases (x == a)) [
  | inl same ↦
      let eq : x ≡ a = ground (arith, string_eq.beq_iff x a) in
      subst (λ (b : String). contains b (keep_if p (x ∷ xs)) ≡ (p b && contains b (x ∷ xs))) eq
        (ground (arith, contains-keep_if p x xs, string_eq.beq_iff x x))
  | inr other ↦ ground (arith, other, contains-keep_if p a xs)
]

IsUnique-keep_if : (p : String → Bool) (xs : List String) → IsUnique xs → IsUnique (keep_if p xs)
IsUnique-keep_if p [] u = u
IsUnique-keep_if p (x ∷ xs) (fresh, u) =
    ground (arith, IsUnique-keep_if p xs u, contains-keep_if p x xs, fresh)

-- A list without repetition is no longer than a list that holds all of it.
remove_first : String → List String → List String
remove_first a [] = []
remove_first a (x ∷ xs) = let rest = remove_first a xs in if x == a then xs else x ∷ rest

length-remove_first :
    (a : String) (xs : List String)
    → contains a xs ≡ true
    → suc (length (remove_first a xs)) ≡ length xs
unfolding remove_first
length-remove_first a [] h = absurd (ground arith)
length-remove_first a (x ∷ xs) h = ground (arith, length-remove_first a xs)

contains-remove_first :
    (a b : String) (xs : List String)
    → (a == b) ≡ false
    → contains b (remove_first a xs) ≡ contains b xs
unfolding remove_first
contains-remove_first a b [] h = refl
contains-remove_first a b (x ∷ xs) h = ground (
  arith,
  contains-remove_first a b xs h,
  string_eq.beq_iff x a,
  string_eq.beq_iff x b,
  string_eq.beq_iff a b,
)

length-IsUnique :
    (xs ys : List String)
    → IsUnique xs
    → ((a : String) → contains a xs ≡ true → contains a ys ≡ true)
    → length xs ≤ length ys
length-IsUnique [] ys u sub = omega arith
length-IsUnique (x ∷ xs) ys (fresh, u) sub =
    let here : contains x ys ≡ true = sub x (ground (arith, string_eq.beq_iff x x)) in
    let rest = length-IsUnique xs (remove_first x ys) u (λ a there. elim (Bool-cases (x == a)) [
      | inl same ↦ absurd (ground (arith, fresh, there, string_eq.beq_iff x a))
      | inr other ↦
          ground (arith, contains-remove_first x a ys other, sub a (ground (arith, there)))
    ]) in
    omega (arith, rest, length-remove_first x ys here)

length-keep_if-not :
    (p : String → Bool) (xs : List String)
    → length (keep_if p xs) + length (keep_if (λ x. not (p x)) xs) ≡ length xs
length-keep_if-not p [] = omega arith
length-keep_if-not p (x ∷ xs) = ground (arith, length-keep_if-not p xs)

-- The refs of the evidence, each once and none empty.
contains-covered_from :
    (a : String) (seen refs : List String)
    → contains a (covered_from seen refs)
      ≡ (not (a == "") && not (contains a seen) && contains a refs)
unfolding covered_from
contains-covered_from a seen [] = ground arith
contains-covered_from a seen (r ∷ refs) = elim (Bool-cases (r == a)) [
  | inl same ↦
      let eq : r ≡ a = ground (arith, string_eq.beq_iff r a) in
      subst
        (λ (b : String).
          contains b (covered_from seen (r ∷ refs))
          ≡ (not (b == "") && not (contains b seen) && contains b (r ∷ refs)))
        eq
        (ground (
          arith,
          string_eq.beq_iff r r,
          contains-covered_from r seen refs,
          contains-covered_from r (r ∷ seen) refs,
        ))
  | inr other ↦
      ground
        (arith, other, contains-covered_from a seen refs, contains-covered_from a (r ∷ seen) refs)
]

covered_from-IsUnique : (seen refs : List String) → IsUnique (covered_from seen refs)
unfolding covered_from
covered_from-IsUnique seen [] = tt
covered_from-IsUnique seen (r ∷ refs) = elim (Bool-cases (r == "" || contains r seen)) [
  | inl skips ↦ rw skips (covered_from-IsUnique seen refs)
  | inr takes ↦ rw takes (
    ground (arith, contains-covered_from r (r ∷ seen) refs, string_eq.beq_iff r r),
    covered_from-IsUnique (r ∷ seen) refs,
  )
]

-- The evidence names a ref that is no empty text.
pub is_evidenced : Dict String (List String) → String → Bool
is_evidenced evidence_map r = not (r == "") && contains r (all_values (values evidence_map))

contains-covered_refs :
    (evidence_map : Dict String (List String)) (r : String)
    → contains r (covered_refs evidence_map) ≡ is_evidenced evidence_map r
unfolding covered_refs is_evidenced
contains-covered_refs evidence_map r =
    ground (arith, contains-covered_from r [] (all_values (values evidence_map)))

module _ (rows : List (Option String)) (slug : String) (evidence_map : Dict String (List String))
    (excluded : Dict String String) where
  abbrev eligible : List String
  eligible = eligible_refs rows excluded

  abbrev report : LogicCoverageReport
  report = brd_logic_coverage rows slug evidence_map excluded

  contains-covered :
      (r : String)
      → contains r report.covered_refs ≡ (is_evidenced evidence_map r && contains r eligible)
  unfolding brd_logic_coverage
  contains-covered r = ground (
    arith,
    contains-keep_if (λ r. contains r eligible) r (covered_refs evidence_map),
    contains-covered_refs evidence_map r,
  )

  contains-uncovered :
      (r : String)
      → contains r report.uncovered_refs
        ≡ (contains r eligible && not (is_evidenced evidence_map r))
  unfolding brd_logic_coverage
  contains-uncovered r = ground (
    arith,
    contains-keep_if (λ r. not (contains r report.covered_refs)) r eligible,
    contains-covered r,
  )

  covered-IsUnique : IsUnique report.covered_refs
  unfolding brd_logic_coverage covered_refs
  covered-IsUnique =
      IsUnique-keep_if (λ r. contains r eligible) (covered_refs evidence_map)
        (covered_from-IsUnique [] (all_values (values evidence_map)))

  covered_within :
      length report.covered_refs ≤ length (keep_if (λ r. contains r report.covered_refs) eligible)
  covered_within =
      length-IsUnique report.covered_refs (keep_if (λ r. contains r report.covered_refs) eligible)
        covered-IsUnique
        (λ a there. ground (
          arith,
          contains-keep_if (λ r. contains r report.covered_refs) a eligible,
          contains-covered a,
          there,
        ))

  within_covered :
      IsUnique eligible
      → length (keep_if (λ r. contains r report.covered_refs) eligible) ≤ length report.covered_refs
  within_covered once =
      length-IsUnique (keep_if (λ r. contains r report.covered_refs) eligible) report.covered_refs
        (IsUnique-keep_if (λ r. contains r report.covered_refs) eligible once)
        (λ a there.
          ground (arith, contains-keep_if (λ r. contains r report.covered_refs) a eligible, there))

  total_is : report.total_refs ≡ length eligible
  unfolding brd_logic_coverage
  total_is = refl

  uncovered_count :
      length (keep_if (λ r. contains r report.covered_refs) eligible) + length report.uncovered_refs
      ≡ length eligible
  unfolding brd_logic_coverage
  uncovered_count = length-keep_if-not (λ r. contains r report.covered_refs) eligible

-- Where the graph has an eligible ref once, the report splits the eligible refs: the covered ones
-- are those that the evidence names, the uncovered ones are the others, and their numbers add up
-- to the total. An eligible ref is a ref of the graph that is not excluded.
pub brd_logic_coverage-splits :
    (rows : List (Option String)) (slug : String) (evidence_map : Dict String (List String))
    (excluded : Dict String String)
    → IsUnique (eligible_refs rows excluded)
    → let report = brd_logic_coverage rows slug evidence_map excluded in
      let eligible = eligible_refs rows excluded in
      (length report.covered_refs + length report.uncovered_refs ≡ report.total_refs)
      × IsUnique report.covered_refs
      × ((r : String)
          → contains r report.covered_refs ≡ (is_evidenced evidence_map r && contains r eligible))
      × ((r : String)
          → contains r report.uncovered_refs
            ≡ (contains r eligible && not (is_evidenced evidence_map r)))
brd_logic_coverage-splits rows slug evidence_map excluded once = (
  omega (
    arith,
    covered_within rows slug evidence_map excluded,
    within_covered rows slug evidence_map excluded once,
    total_is rows slug evidence_map excluded,
    uncovered_count rows slug evidence_map excluded,
  ),
  covered-IsUnique rows slug evidence_map excluded,
  contains-covered rows slug evidence_map excluded,
  contains-uncovered rows slug evidence_map excluded,
)
