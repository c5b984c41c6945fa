-- ===== src/StoryRunner/BuildGate/Verdict.antt =====
-- What the gate of a build of stories decides.
mod Examples
use cobol_java_migrator_v.Prelude.{
  ℕ, zero, suc, ◌+◌, ◌≤◌, String, Bool, true, false, not, ◌&&◌, ◌||◌, ◌≡◌, refl, ◌∙◌, ap, subst,
  sym, ◌⊎◌, inl, inr, Option, none, some, List, [], ◌∷◌, Result, ok, err, ◌==◌, string_eq,
  option_eq, arith, Bool-cases, length, is_empty, keep_if, any, all, contains, sorted, to_set,
  text_leb, contains-sorted_by, contains-to_set, if◌then◌else◌,
}
use cobol_java_migrator_v.StoryRunner.BuildGate.{
  GateSummary, GateError, no_results, not_comparable, not_acceptable, none_built,
  is_acceptable_text, is_skipped, is_deferred, is_tolerated, is_built, untolerated, texts,
  offenders, count_where, summary_of, judge_built, gate_stage,
}

-- The verdict by its outcome.
pub Explains : List (Option String) → Bool → Result GateError GateSummary → Type 0
Explains ss targeted (ok s) =
    (all is_tolerated ss ≡ true)
    × (1 ≤ length ss)
    × ((1 ≤ s.pass_count) ⊎ (targeted ≡ true))
    × (s.pass_count + s.pending_count ≡ length ss)
    × (s.rebuilt_count + s.cache_hit_count ≡ length ss)
Explains ss targeted (err no_results) = length ss ≡ 0
Explains ss targeted (err not_comparable) =
    (contains none ss ≡ true) × (any (λ s. not (s == none) && not (is_tolerated s)) ss ≡ true)
Explains ss targeted (err (not_acceptable names)) =
    (all is_tolerated ss ≡ false)
    × ((t : String)
        → contains t names ≡ (not (t == "") && contains (some t) ss && not (is_tolerated (some t))))
Explains ss targeted (err (none_built d k)) =
    (targeted ≡ false) × (any is_built ss ≡ false) × (d + k ≡ length ss)

is_empty-untolerated : (ss : List (Option String)) → is_empty (untolerated ss) ≡ all is_tolerated ss
unfolding untolerated
is_empty-untolerated [] = refl
is_empty-untolerated (s ∷ ss) = ground (arith, is_empty-untolerated ss)

-- A tolerated status is one of built, deferred and skipped.
abbrev ones : Bool → ℕ
ones b = if b then 1 else 0

one_kind :
    (s : Option String)
    → is_tolerated s ≡ true
    → ones (is_built s) + (ones (is_deferred s) + ones (is_skipped s)) ≡ 1
unfolding is_tolerated is_built is_deferred is_skipped is_acceptable_text
one_kind none h = absurd (ground arith)
one_kind (some s) h = elim (Bool-cases (s == "skipped")) [
  | inl skips ↦
      subst
        (λ (t : String).
          ones (is_built (some t)) + (ones (is_deferred (some t)) + ones (is_skipped (some t))) ≡ 1)
        (sym ((string_eq.beq_iff s "skipped").0 skips)) refl
  | inr other ↦ elim (Bool-cases (s == "deferred")) [
    | inl defers ↦
        subst
          (λ (t : String).
            ones (is_built (some t)) + (ones (is_deferred (some t)) + ones (is_skipped (some t)))
            ≡ 1)
          (sym ((string_eq.beq_iff s "deferred").0 defers)) refl
    | inr builds ↦ ground (arith, other, builds)
  ]
]

tolerated_count :
    (ss : List (Option String))
    → all is_tolerated ss ≡ true
    → count_where is_built ss + (count_where is_deferred ss + count_where is_skipped ss) ≡ length ss
unfolding count_where
tolerated_count [] h = omega arith
tolerated_count (s ∷ ss) h =
    ground (arith, tolerated_count ss (ground arith), one_kind s (ground arith))

none_counted :
    (p : Option String → Bool) (ss : List (Option String)) → count_where p ss ≡ 0 → any p ss ≡ false
unfolding count_where
none_counted p [] h = refl
none_counted p (s ∷ ss) h = ground (arith, none_counted p ss)

judge_built-Explains :
    (ss : List (Option String)) (targeted : Bool) (n : ℕ)
    → all is_tolerated ss ≡ true
    → 1 ≤ length ss
    → count_where is_built ss ≡ n
    → Explains ss targeted (judge_built ss targeted n)
unfolding judge_built summary_of Explains
judge_built-Explains ss true zero fine some_story built =
    (fine, some_story, inr refl, tolerated_count ss fine, omega (arith, tolerated_count ss fine))
judge_built-Explains ss false zero fine some_story built =
    (refl, none_counted is_built ss built, omega (arith, tolerated_count ss fine, built))
judge_built-Explains ss targeted (suc n) fine some_story built = (
  fine,
  some_story,
  inl (omega arith),
  tolerated_count ss fine,
  omega (arith, tolerated_count ss fine),
)

-- The names that the refusal shows.
contains-keep_if :
    (p : String → Bool) (t : String) (xs : List String)
    → contains t (keep_if p xs) ≡ (p t && contains t xs)
contains-keep_if p t [] = ground arith
contains-keep_if p t (x ∷ xs) = elim (Bool-cases (x == t)) [
  | inl same ↦
      let at_t = ap p ((string_eq.beq_iff x t).0 same) in
      ground (arith, at_t, same, contains-keep_if p t xs)
  | inr other ↦ ground (arith, other, contains-keep_if p t xs)
]

contains-texts :
    (t : String) (ss : List (Option String))
    → contains t (texts (untolerated ss)) ≡ (contains (some t) ss && not (is_tolerated (some t)))
unfolding texts untolerated
contains-texts t [] = refl
contains-texts t (none ∷ ss) = ground (arith, contains-texts t ss)
contains-texts t (some s ∷ ss) = elim (Bool-cases (s == t)) [
  | inl same ↦
      let at_t = ap (λ (x : String). is_tolerated (some x)) ((string_eq.beq_iff s t).0 same) in
      ground (arith, at_t, same, contains-texts t ss)
  | inr other ↦ ground (arith, other, contains-texts t ss)
]

contains-offenders :
    (t : String) (ss : List (Option String))
    → contains t (offenders ss)
      ≡ (not (t == "") && contains (some t) ss && not (is_tolerated (some t)))
unfolding offenders
contains-offenders t ss =
    let found = texts (untolerated ss) in
    ground (
      arith,
      contains-keep_if (λ s. not (s == "")) t (sorted (to_set found)),
      contains-sorted_by text_leb t (to_set found),
      contains-to_set t found,
      contains-texts t ss,
    )

none_kept :
    (ss : List (Option String)) → contains none (untolerated ss) ≡ true → contains none ss ≡ true
unfolding untolerated
none_kept [] h = h
none_kept (s ∷ ss) h = ground (arith, none_kept ss)

text_kept :
    (ss : List (Option String))
    → is_empty (texts (untolerated ss)) ≡ false
    → any (λ s. not (s == none) && not (is_tolerated s)) ss ≡ true
unfolding texts untolerated
text_kept [] h = absurd (ground arith)
text_kept (none ∷ ss) h = ground (arith, text_kept ss)
text_kept (some s ∷ ss) h = ground (arith, text_kept ss)

refused :
    (ss : List (Option String)) (targeted : Bool)
    → is_empty (untolerated ss) ≡ false
    → Explains ss targeted (
        if contains none (untolerated ss) && not (is_empty (texts (untolerated ss)))
        then err not_comparable
        else err (not_acceptable (offenders ss)))
unfolding Explains
refused ss targeted stops =
    elim (Bool-cases (contains none (untolerated ss) && not (is_empty (texts (untolerated ss))))) [
      | inl mixed ↦ rw mixed (none_kept ss (ground arith), text_kept ss (ground arith))
      | inr sortable ↦
          rw sortable (ground (arith, is_empty-untolerated ss, stops), λ t. contains-offenders t ss)
    ]

-- For any statuses the gate passes a build only where every status is tolerated and, unless one
-- story was targeted, some story was built; the counts of the summary then add up to the stories.
-- It refuses an empty build; a build with statuses outside the tolerated ones, of which it names
-- exactly the texts that are not empty, or raises where None stands among such texts; and an
-- untargeted build whose stories were all deferred or skipped.
pub gate_stage-Explains :
    (ss : List (Option String)) (targeted : Bool) → Explains ss targeted (gate_stage ss targeted)
unfolding gate_stage Explains
gate_stage-Explains [] targeted = refl
gate_stage-Explains (s ∷ ss) targeted = elim (Bool-cases (is_empty (untolerated (s ∷ ss)))) [
  | inl fine ↦ rw fine (
      judge_built-Explains (s ∷ ss) targeted (count_where is_built (s ∷ ss))
        (ground (arith, is_empty-untolerated (s ∷ ss), fine)) (omega arith) refl)
  | inr stops ↦ rw stops (refused (s ∷ ss) targeted stops)
]
