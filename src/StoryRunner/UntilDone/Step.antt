-- ===== src/StoryRunner/UntilDone/Step.antt =====
-- What one pass does to the state.
use cobol_java_migrator_v.Prelude.{
  suc, ◌+◌, String, ◌≡◌, refl, ap, Bool, true, false, ◌&&◌, ◌||◌, List, [], ◌∷◌, arith, is_some,
  nat_eq, string_eq, pair_eq, option_eq, keep_if, contains, count,
}
use cobol_java_migrator_v.Prelude.Dict.{Dict, get, put, get-put}
use cobol_java_migrator_v.Codegen.StoryPlan.{StoryItem}
use cobol_java_migrator_v.StoryRunner.{ids_of}
use cobol_java_migrator_v.StoryRunner.Plan.{StoryRunResult, result_ids}
use cobol_java_migrator_v.StoryRunner.Plan.Returns.{Keyed, Keyed-put, id_of}
use cobol_java_migrator_v.StoryRunner.UntilDone.{
  BuildState, attempts_of, record_result, record_results, item_by_id,
}

pub record_results-attempts :
    (s : String) (outs : List StoryRunResult) (st : BuildState)
    → attempts_of (record_results outs st) s ≡ attempts_of st s + count s (result_ids outs)
unfolding record_results record_result
record_results-attempts s [] st = omega arith
record_results-attempts s (o ∷ outs) st =
    let rest = record_results-attempts s outs (record_result o st) in
    ground (
      arith,
      rest,
      get-put o.story_id s (suc (attempts_of st o.story_id)) st.attempts,
      string_eq.beq_iff o.story_id s,
      ap (attempts_of st),
    )

pub record_results-other :
    (s : String) (outs : List StoryRunResult) (st : BuildState)
    → contains s (result_ids outs) ≡ false
    → get s (record_results outs st).latest ≡ get s st.latest
unfolding record_results record_result
record_results-other s [] st h = refl
record_results-other s (o ∷ outs) st h =
    let rest = record_results-other s outs (record_result o st) (ground arith) in
    ground (arith, rest, get-put o.story_id s o st.latest)

pub record_results-Keyed :
    (outs : List StoryRunResult) (st : BuildState)
    → Keyed id_of st.latest
    → Keyed id_of (record_results outs st).latest
unfolding record_results record_result
record_results-Keyed [] st h = h
record_results-Keyed (o ∷ outs) st h =
    record_results-Keyed outs (record_result o st) (Keyed-put id_of o.story_id o st.latest refl h)

pub record_results-is_some :
    (s : String) (outs : List StoryRunResult) (st : BuildState)
    → (contains s (result_ids outs) || is_some (get s st.latest)) ≡ true
    → is_some (get s (record_results outs st).latest) ≡ true
unfolding record_results record_result
record_results-is_some s [] st h = h
record_results-is_some s (o ∷ outs) st h =
    record_results-is_some s outs (record_result o st)
      (ground (arith, get-put o.story_id s o st.latest))

pub record_results-passes :
    (outs : List StoryRunResult) (st : BuildState) → (record_results outs st).passes ≡ st.passes
unfolding record_results record_result
record_results-passes [] st = refl
record_results-passes (o ∷ outs) st = record_results-passes outs (record_result o st)

pub item_by_id-Keyed :
    (items : List StoryItem) (d : Dict String StoryItem)
    → Keyed (λ it. it.story_id) d
    → Keyed (λ it. it.story_id) (item_by_id items d)
unfolding item_by_id
item_by_id-Keyed [] d h = h
item_by_id-Keyed (it ∷ its) d h =
    item_by_id-Keyed its (put it.story_id it d)
      (Keyed-put (λ (i : StoryItem). i.story_id) it.story_id it d refl h)

pub item_by_id-is_some :
    (s : String) (items : List StoryItem) (d : Dict String StoryItem)
    → (contains s (ids_of items) || is_some (get s d)) ≡ true
    → is_some (get s (item_by_id items d)) ≡ true
unfolding item_by_id
item_by_id-is_some s [] d h = h
item_by_id-is_some s (it ∷ its) d h =
    item_by_id-is_some s its (put it.story_id it d) (ground (arith, get-put it.story_id s it d))

pub contains-keep_if :
    (s : String) (p : String → Bool) (xs : List String)
    → contains s (keep_if p xs) ≡ (p s && contains s xs)
contains-keep_if s p [] = ground arith
contains-keep_if s p (x ∷ xs) = ground (arith, contains-keep_if s p xs, string_eq.beq_iff x s, ap p)
