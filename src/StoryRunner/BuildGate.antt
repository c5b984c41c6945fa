-- ===== src/StoryRunner/BuildGate.antt =====
-- The verdict on a build of stories (`_gate_stage` of
-- src/cobol_modernizer/controlplane/build_stories.py), from the statuses of its results: any texts,
-- or None where a result has no status.
mod Verdict
use cobol_java_migrator_v.Prelude.{
  ℕ, zero, suc, ◌+◌, String, Bool, false, not, ◌&&◌, ◌||◌, Option, none, some, List, [], ◌∷◌, ◌==◌,
  string_eq, option_eq, Result, ok, err, length, is_empty, keep_if, contains, sorted, to_set,
  if◌then◌else◌,
}

pub record GateSummary : Type 0 where
  pub story_count : ℕ
  pub pass_count : ℕ
  pub skipped_count : ℕ
  pub cache_hit_count : ℕ
  pub rebuilt_count : ℕ
  pub deferred_count : ℕ
  pub pending_count : ℕ

-- The three RuntimeErrors, with the numbers and statuses that their texts show, and the TypeError of
-- sorting None among texts.
pub data GateError : Type 0 where
  no_results : GateError
  not_comparable : GateError
  not_acceptable : List String → GateError
  none_built : ℕ → ℕ → GateError

-- ACCEPTED_STORY_STATUSES
unfoldable pub is_acceptable_text : String → Bool
is_acceptable_text s = s == "passed" || s == "generated-unverified" || s == "skipped"

unfoldable pub is_skipped : Option String → Bool
is_skipped none = false
is_skipped (some s) = s == "skipped"

unfoldable pub is_deferred : Option String → Bool
is_deferred none = false
is_deferred (some s) = s == "deferred"

-- _GATE_TOLERATED
unfoldable pub is_tolerated : Option String → Bool
is_tolerated none = false
is_tolerated (some s) = is_acceptable_text s || s == "deferred"

unfoldable pub is_built : Option String → Bool
is_built none = false
is_built (some s) = is_acceptable_text s && not (s == "skipped")

unfoldable pub untolerated : List (Option String) → List (Option String)
untolerated = keep_if (λ s. not (is_tolerated s))

unfoldable pub texts : List (Option String) → List String
texts [] = []
texts (none ∷ ss) = texts ss
texts (some s ∷ ss) = s ∷ texts ss

-- The statuses that the text of the error shows.
unfoldable pub offenders : List (Option String) → List String
offenders statuses = keep_if (λ s. not (s == "")) (sorted (to_set (texts (untolerated statuses))))

unfoldable pub count_where : (Option String → Bool) → List (Option String) → ℕ
count_where p statuses = length (keep_if p statuses)

unfoldable pub summary_of : List (Option String) → GateSummary
summary_of statuses =
    let passes = count_where is_built statuses in
    let skips = count_where is_skipped statuses in
    let defers = count_where is_deferred statuses in
    record {
      story_count = length statuses;
      pass_count = passes;
      skipped_count = skips;
      cache_hit_count = skips;
      rebuilt_count = passes + defers;
      deferred_count = defers;
      pending_count = defers + skips;
    }

-- The last test, once the statuses are known to be tolerated.
unfoldable pub judge_built : List (Option String) → Bool → ℕ → Result GateError GateSummary
judge_built statuses targeted_story zero =
    if targeted_story
    then ok (summary_of statuses)
    else err (none_built (count_where is_deferred statuses) (count_where is_skipped statuses))
judge_built statuses targeted_story (suc n) = ok (summary_of statuses)

unfoldable pub gate_stage : List (Option String) → Bool → Result GateError GateSummary
gate_stage statuses targeted_story =
    if is_empty statuses
    then err no_results
    else if is_empty (untolerated statuses)
    then judge_built statuses targeted_story (count_where is_built statuses)
    else if contains none (untolerated statuses) && not (is_empty (texts (untolerated statuses)))
    then err not_comparable
    else err (not_acceptable (offenders statuses))
