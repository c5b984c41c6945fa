-- ===== src/Planner/Invest/Floor.antt =====
-- The groundedness floor of the judgement.
use cobol_java_migrator_v.Prelude.{
  String, ◌≡◌, refl, sym, ap, ◌∙◌, Bool, false, not, ◌&&◌, Option, List, [], ◌∷◌, arith, eqb,
  or_else, nat_eq, string_eq, pair_eq, option_eq, length, is_empty, keep_if, all, text_leb, sorted,
  to_set, length-sorted_by,
}
use cobol_java_migrator_v.Prelude.Dict.{Dict}
use cobol_java_migrator_v.Prelude.Int.{ℤ, pos, ◌≤ℤ◌, leb_ℤ}
use cobol_java_migrator_v.Planner.Invest.{
  Dim, valuable, estimable, dims, refs_of, failures_in, score, judge_story,
}

empty-keep_if :
    (p : String → Bool) (xs : List String) → is_empty (keep_if (λ r. not (p r)) xs) ≡ all p xs
empty-keep_if p [] = refl
empty-keep_if p (x ∷ xs) = ground (arith, empty-keep_if p xs)

empty_length : (xs : List String) → is_empty xs ≡ eqb (length xs) 0
empty_length [] = refl
empty_length (x ∷ xs) = ground arith

empty-to_set : (xs : List String) → is_empty (to_set xs) ≡ is_empty xs
empty-to_set [] = refl
empty-to_set (x ∷ []) = refl
empty-to_set (x ∷ y ∷ xs) = ground (arith, empty-to_set (y ∷ xs))

empty-failures_in : (p : String → Bool) (xs : List String) → is_empty (failures_in p xs) ≡ all p xs
unfolding failures_in
empty-failures_in p xs =
    let unknown = keep_if (λ r. not (p r)) xs in
    empty_length (sorted (to_set unknown))
    ∙ ap (λ n. eqb n 0) (length-sorted_by text_leb (to_set unknown))
    ∙ sym (empty_length (to_set unknown))
    ∙ empty-to_set unknown
    ∙ empty-keep_if p xs

-- A story is judged as passed exactly when every cited reference is known and the model scored every
-- dimension at least 3, where a missing score counts as 3; and a story with an unknown reference has
-- at most 2 for its value and its estimate.
judge_story-passed :
    (evidence : Dict String (List String)) (is_known : String → Bool) (raw : Dim → Option ℤ)
    → let j = judge_story evidence is_known raw in
      let grounded = all is_known (refs_of evidence) in
      (j.passed ≡ (grounded && all (λ d. leb_ℤ (pos 3) (or_else (raw d) (pos 3))) dims))
      × (grounded ≡ false → (j.invest valuable ≤ℤ pos 2) × (j.invest estimable ≤ℤ pos 2))
unfolding judge_story score
judge_story-passed evidence is_known raw =
    ground (arith, empty-failures_in is_known (refs_of evidence))
