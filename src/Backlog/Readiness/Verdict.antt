-- ===== src/Backlog/Readiness/Verdict.antt =====
-- What a ready backlog is.
mod Examples
use cobol_java_migrator_v.Prelude.{
  ℕ, ◌-◌, ◌≤◌, String, ◌≡◌, refl, sym, ◌∙◌, subst, ◌↔◌, inl, inr, Bool, true, not, ◌&&◌, none, List,
  [], ◌∷◌, map, arith, eqb, Bool-cases, ◌==◌, nat_eq, string_eq, pair_eq, option_eq, length,
  is_empty, keep_if, all, contains, text_leb, sorted, to_set, length-sorted_by, contains-to_set,
}
use cobol_java_migrator_v.Backlog.{Epic, BacklogStory}
use cobol_java_migrator_v.Backlog.Readiness.{
  requirement_ids, minus, covered_ids, backlog_ids, ids_where, measure_backlog, readiness_passed,
  assess_backlog_readiness,
}

is_empty-length : {A : Type 0} (xs : List A) → is_empty xs ≡ eqb (length xs) 0
is_empty-length [] = ground arith
is_empty-length (x ∷ xs) = ground arith

is_empty-sorted : (xs : List String) → is_empty (sorted xs) ≡ is_empty xs
is_empty-sorted xs =
    ground (arith, is_empty-length (sorted xs), is_empty-length xs, length-sorted_by text_leb xs)

-- No story stands out where the list of those that do is empty.
ids_where-none :
    (p : BacklogStory → Bool) (ss : List BacklogStory)
    → is_empty (ids_where p ss) ≡ all (λ s. not (p s)) ss
unfolding ids_where
ids_where-none p ss = is_empty-sorted (backlog_ids (keep_if p ss)) ∙ none p ss
  where
    none :
        (p : BacklogStory → Bool) (ss : List BacklogStory)
        → is_empty (backlog_ids (keep_if p ss)) ≡ all (λ s. not (p s)) ss
    none p [] = refl
    none p (s ∷ ss) = ground (arith, none p ss)

is_empty-to_set : (xs : List String) → is_empty (to_set xs) ≡ is_empty xs
is_empty-to_set [] = refl
is_empty-to_set (x ∷ xs) = ground (arith, is_empty-to_set xs)

covered_when :
    (xs ys : List String)
    → is_empty (minus xs ys) ≡ true
    → (r : String) → contains r xs ≡ true
    → contains r ys ≡ true
unfolding minus
covered_when xs ys h r there =
    let kept = keep_if (λ x. not (contains x ys)) (to_set xs) in
    let nothing = sym (is_empty-sorted kept) ∙ h in
    none (to_set xs) nothing (contains-to_set r xs ∙ there)
  where
    none :
        (zs : List String)
        → is_empty (keep_if (λ x. not (contains x ys)) zs) ≡ true
        → contains r zs ≡ true
        → contains r ys ≡ true
    none [] h there = absurd (ground arith)
    none (z ∷ zs) h there = elim (Bool-cases (z == r)) [
      | inl same ↦ subst (λ x. contains x ys ≡ true) ((string_eq.beq_iff z r).0 same) (ground arith)
      | inr other ↦ none zs (ground arith) (ground arith)
    ]

-- Where the verdict is positive, the coverage of the graph is at its threshold at least, the
-- stories cover exactly the requirements of the BRD, and every story has an epic, requirements,
-- evidence and acceptance criteria.
pub assess_backlog_readiness-ready :
    (epics : List Epic) (stories : List BacklogStory) (brd_ids known_refs : List String)
    (graph_coverage min_graph_coverage : ℕ)
    → (assess_backlog_readiness epics stories brd_ids known_refs graph_coverage
        min_graph_coverage).0
      ≡ true
    → (min_graph_coverage ≤ graph_coverage)
      × ((r : String)
          → (contains r (requirement_ids brd_ids) ≡ true)
            ↔ (contains r (covered_ids stories) ≡ true))
      × (all
            (λ s.
              contains s.epic_id (map (λ e. e.id) epics)
              && not (is_empty s.brd_requirement_ids)
              && not (is_empty s.evidence_refs)
              && not (is_empty s.acceptance_criteria))
            stories
          ≡ true)
unfolding assess_backlog_readiness measure_backlog readiness_passed
assess_backlog_readiness-ready epics stories brd_ids known_refs graph_coverage min_graph_coverage
      h =
    let expected = requirement_ids brd_ids in
    let covered = to_set (covered_ids stories) in
    let has_epic = λ (s : BacklogStory). contains s.epic_id (map (λ e. e.id) epics) in
    let orphan = ids_where-none (λ s. not (has_epic s)) stories in
    let requirements = ids_where-none (λ s. is_empty s.brd_requirement_ids) stories in
    let evidence = ids_where-none (λ s. is_empty s.evidence_refs) stories in
    let accepted = ids_where-none (λ s. is_empty s.acceptance_criteria) stories in
    let into = covered_when expected covered (ground arith) in
    let back = covered_when covered expected (ground arith) in
    (
      ground arith,
      λ r.
          let same = contains-to_set r (covered_ids stories) in
          (λ there. ground (arith, into r there), λ there. back r (ground arith)),
      all_four stories (ground arith) (ground arith) (ground arith) (ground arith),
    )
  where
    all_four :
        (ss : List BacklogStory)
        → all (λ s. not (not (contains s.epic_id (map (λ e. e.id) epics)))) ss ≡ true
        → all (λ s. not (is_empty s.brd_requirement_ids)) ss ≡ true
        → all (λ s. not (is_empty s.evidence_refs)) ss ≡ true
        → all (λ s. not (is_empty s.acceptance_criteria)) ss ≡ true
        → all
            (λ s.
              contains s.epic_id (map (λ e. e.id) epics)
              && not (is_empty s.brd_requirement_ids)
              && not (is_empty s.evidence_refs)
              && not (is_empty s.acceptance_criteria))
            ss
          ≡ true
    all_four [] a b c d = refl
    all_four (s ∷ ss) a b c d =
        ground (arith, all_four ss (ground arith) (ground arith) (ground arith) (ground arith))
