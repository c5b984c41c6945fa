-- ===== src/StoryRunner/UntilDone/Ends.antt =====
-- The passes end, and leave no story failed.
use cobol_java_migrator_v.Prelude.{
  contains-count, All-contains, ℕ, zero, suc, ◌+◌, ◌≤◌, ◌<◌, String, ◌≡◌, refl, ap, ◌⊎◌, inl, inr,
  true, false, ◌&&◌, ◌||◌, some, List, [], ◌∷◌, ◌++◌, arith, ltb, Bool-cases, is_some, Result, ok,
  nat_eq, string_eq, pair_eq, option_eq, beq_refl, length, is_empty, length-append, contains,
  All-contains,
}
use cobol_java_migrator_v.Prelude.Dict.{get}
use cobol_java_migrator_v.Codegen.Budget.{Status, BuildBudget, pool_exhausted}
use cobol_java_migrator_v.Codegen.StoryPlan.{StoryItem}
use cobol_java_migrator_v.StoryRunner.{ids_of}
use cobol_java_migrator_v.StoryRunner.Plan.{StoryRunResult, result_ids}
use cobol_java_migrator_v.StoryRunner.Plan.Returns.{
  Keyed, Keyed-empty, look_up_all-Keyed, id_of, Returning, run_story_plan_returns,
}
use cobol_java_migrator_v.StoryRunner.UntilDone.{
  BuildState, attempts_of, record_results, is_failed, latest_is, failed_ids, item_by_id, retryable,
  one_pass, retry_items, retry_pass, repeat, no_progress, build_passes, initial,
}
use cobol_java_migrator_v.StoryRunner.UntilDone.Step.{
  record_results-attempts, record_results-other, record_results-Keyed, record_results-is_some,
  record_results-passes, item_by_id-Keyed, item_by_id-is_some, contains-keep_if,
}

pub retryable-known :
    (cap : ℕ) (items : List StoryItem) (st : BuildState) (s : String)
    → contains s (retryable cap items st) ≡ (
        ltb (attempts_of st s) cap
        && (latest_is is_failed st.latest s && contains s (ids_of items)))
unfolding retryable failed_ids
retryable-known cap items st s =
    let outer = contains-keep_if s (λ s. ltb (attempts_of st s) cap) (failed_ids items st.latest) in
    let inner = contains-keep_if s (latest_is is_failed st.latest) (ids_of items) in
    ground (arith, outer, inner)

some_member : (xs : List String) → is_empty xs ≡ false → (s : String) × (contains s xs ≡ true)
some_member [] h = absurd (ground arith)
some_member (x ∷ xs) h = (x, ground (arith, beq_refl x))

module _ {E : Type 0} (key_error : String → E)
    (run : ℕ → StoryItem → List (String × Status) → Result E StoryRunResult) (budget : BuildBudget)
    (cap : ℕ) (items : List StoryItem) where
  -- Every story has a result of its own, a failed story was in every pass or has used its
  -- attempts, and there are no more passes than the cap allows.
  pub record Inv (st : BuildState) : Type 0 where
    pub known : (s : String) → contains s (ids_of items) ≡ true → is_some (get s st.latest) ≡ true
    pub keyed : Keyed id_of st.latest
    pub tried :
        (s : String)
        → contains s (ids_of items) ≡ true
        → latest_is is_failed st.latest s ≡ true
        → (length st.passes ≤ attempts_of st s) ⊎ (cap ≤ attempts_of st s)
    pub bounded : length st.passes ≤ cap

  abbrev pub with_pass : List String → BuildState → BuildState
  with_pass ids st = record st { passes = st.passes ++ ids ∷ [] }

  module _ (returns : (n : ℕ) → Returning (run n)) where
    one_pass_returns :
        (pass_items : List StoryItem) (st : BuildState)
        → (outs : List StoryRunResult) × (one_pass key_error run budget cap items pass_items st
            ≡ some (ok (record_results outs (with_pass (ids_of pass_items) st))))
          × (result_ids outs ≡ ids_of pass_items)
    unfolding one_pass
    one_pass_returns pass_items st =
        let n = length st.passes in
        let (outs, runs, ids) = run_story_plan_returns key_error run n (returns n) pass_items in
        (outs, rw runs refl, ids)

    pub retry_pass_returns :
        (st : BuildState)
        → (outs : List StoryRunResult) × (retry_pass key_error run budget cap items st
            ≡ some (ok (record_results outs (with_pass (retryable cap items st) st))))
          × (result_ids outs ≡ retryable cap items st)
    unfolding retry_pass retry_items
    retry_pass_returns st =
        let ids = retryable cap items st in
        let d = item_by_id items [] in
        let key = λ (it : StoryItem). it.story_id in
        let (its, looked, same) =
          look_up_all-Keyed key key_error d (item_by_id-Keyed items [] (Keyed-empty key)) ids (
            All-contains (λ k. is_some (get k d) ≡ true) ids
              (λ k there.
                item_by_id-is_some k items [] (ground (arith, retryable-known cap items st k)))) in
        let (outs, runs, done) = one_pass_returns its st in
        (outs, rw (looked, retry_pass) (rw same at runs), rw same at done)

    passes-record :
        (ids : List String) (outs : List StoryRunResult) (st : BuildState)
        → length (record_results outs (with_pass ids st)).passes ≡ suc (length st.passes)
    passes-record ids outs st = omega (
      arith,
      ap length (record_results-passes outs (with_pass ids st)),
      length-append st.passes (ids ∷ []),
    )

    Inv-pass :
        (ids : List String) (outs : List StoryRunResult) (st : BuildState)
        → result_ids outs ≡ ids
        → length st.passes < cap
        → Keyed id_of st.latest
        → ((s : String)
            → contains s (ids_of items) ≡ true
            → (contains s ids || is_some (get s st.latest)) ≡ true)
        → ((s : String)
            → contains s ids ≡ true
            → (length st.passes ≤ attempts_of st s) ⊎ (cap ≤ attempts_of st s))
        → ((s : String)
            → contains s (ids_of items) ≡ true
            → contains s ids ≡ false
            → latest_is is_failed st.latest s ≡ true
            → cap ≤ attempts_of st s)
        → Inv (record_results outs (with_pass ids st))
    Inv-pass ids outs st same room keyed known ran idle =
        let before = with_pass ids st in
        let after = record_results outs before in
        let more = passes-record ids outs st in
        record {
          known = λ s here. record_results-is_some s outs before (rw same (known s here));
          keyed = record_results-Keyed outs before keyed;
          tried = λ s here fails.
              let counted = record_results-attempts s outs before in
              elim (Bool-cases (contains s ids)) [
                | inl runs ↦
                    let once = contains-count s (result_ids outs) (rw same runs) in
                    elim (ran s runs) [
                      | inl every ↦ inl (omega arith)
                      | inr spent ↦ inr (omega arith)
                    ]
                | inr waits ↦
                    let kept = record_results-other s outs before (rw same waits) in
                    let spent = idle s here waits (ground (arith, kept)) in inr (omega arith)
              ];
          bounded = omega arith;
        }

    Inv-retry :
        (st : BuildState) (outs : List StoryRunResult)
        → Inv st
        → result_ids outs ≡ retryable cap items st
        → is_empty (retryable cap items st) ≡ false
        → Inv (record_results outs (with_pass (retryable cap items st) st))
    Inv-retry st outs inv same some_left =
        let (s, there) = some_member (retryable cap items st) some_left in
        let facts = retryable-known cap items st s in
        let room : length st.passes < cap = elim (inv.tried s (ground arith) (ground arith)) [
          | inl every ↦ ground arith
          | inr spent ↦ ground arith
        ] in
        Inv-pass (retryable cap items st) outs st same room inv.keyed
          (λ s here. ground (arith, inv.known s here))
          (λ s ran.
            let facts = retryable-known cap items st s in inv.tried s (ground arith) (ground arith))
          (λ s here waits fails. let facts = retryable-known cap items st s in ground arith)

    -- The rounds of the loop end: a story that still fails was in every pass, so its attempts are
    -- used after as many passes.
    repeat_ends :
        (fuel : ℕ) (st : BuildState)
        → Inv st
        → cap < fuel + length st.passes
        → (end : BuildState) × (repeat key_error run budget cap items fuel st ≡ some (ok end))
          × Inv end
    unfolding repeat
    repeat_ends zero st inv enough = absurd (omega (arith, inv.bounded))
    repeat_ends (suc fuel) st inv enough =
        elim (Bool-cases (
          is_empty (failed_ids items st.latest)
          || is_empty (retryable cap items st)
          || pool_exhausted budget st.pool_used)) [
            | inl stops ↦ (st, rw (stops, repeat) refl, inv)
            | inr goes ↦
                let (outs, runs, same) = retry_pass_returns st in
                let next = record_results outs (with_pass (retryable cap items st) st) in
                let more = passes-record (retryable cap items st) outs st in
                let kept = Inv-retry st outs inv same (ground arith) in
                elim (Bool-cases (no_progress key_error run budget cap items st next)) [
                  | inl stuck ↦ (next, ground (arith, goes, runs, stuck), kept)
                  | inr better ↦
                      let (end, rest, done) = repeat_ends fuel next kept (omega (arith, more)) in
                      (end, ground (arith, goes, runs, better, rest), done)
                ]
          ]

    initial-Inv :
        1 ≤ cap
        → (outs : List StoryRunResult) → result_ids outs ≡ ids_of items
        → Inv (
            record_results outs (with_pass (ids_of items) (initial key_error run budget cap items)))
    initial-Inv room outs same =
        Inv-pass (ids_of items) outs (initial key_error run budget cap items) same room
          (Keyed-empty id_of) (λ s here. ground arith) (λ s ran. inl (omega arith))
          (λ s here waits fails. absurd (ground arith))

    pub build_passes_ends :
        1 ≤ cap
        → (end : BuildState) × (build_passes key_error run budget cap items ≡ some (ok end))
          × Inv end
    unfolding build_passes
    build_passes_ends room =
        let start = initial key_error run budget cap items in
        let (outs, runs, same) = one_pass_returns items start in
        let first = record_results outs (with_pass (ids_of items) start) in
        let (end, rest, inv) =
          repeat_ends (suc cap) first (initial-Inv room outs same) (omega arith) in
        (end, ground (arith, runs, rest), inv)
