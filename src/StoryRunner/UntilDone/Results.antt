-- ===== src/StoryRunner/UntilDone/Results.antt =====
-- The results of a build: none is left failed, and what is accepted stays.
mod Examples
use cobol_java_migrator_v.Prelude.{
  ℕ, zero, suc, ◌-◌, ◌≤◌, max, String, ◌≡◌, refl, ◌∙◌, sym, ap, ◌++◌, subst, inl, inr, true, false,
  not, ◌&&◌, ◌||◌, Option, some, List, [], ◌∷◌, arith, Bool-cases, Option-cases, is_some, Result,
  ok, Result-cases, ◌==◌, nat_eq, string_eq, pair_eq, option_eq, beq_refl, length, is_empty, All,
  contains, All-contains,
}
use mathlib.Core.Option
use mathlib.Core.List.{append-nil, append_assoc}
use cobol_java_migrator_v.Prelude.Dict.{Dict, get, put, get-put}
use cobol_java_migrator_v.Codegen.Budget.{Status, is_accepted, BuildBudget, pool_exhausted}
use cobol_java_migrator_v.Codegen.StoryPlan.{StoryItem}
use cobol_java_migrator_v.StoryRunner.{ids_of}
use cobol_java_migrator_v.StoryRunner.Plan.{StoryRunResult, result_ids, look_up, look_up_all}
use cobol_java_migrator_v.StoryRunner.Plan.Returns.{
  Keyed, Keyed-put, look_up_all-Keyed, id_of, Returning,
}
use cobol_java_migrator_v.StoryRunner.UntilDone.{
  BuildState, record_results, is_failed, latest_is, failed_ids, item_by_id, retryable, repeat,
  no_progress, build_passes, mark_deferred, defer_all, until_done, run_story_plan_until_done,
}
use cobol_java_migrator_v.StoryRunner.UntilDone.Step.{
  record_results-other, record_results-passes, item_by_id-is_some, contains-keep_if,
}
use cobol_java_migrator_v.StoryRunner.UntilDone.Ends.{
  build_passes_ends, retry_pass_returns, with_pass, retryable-known,
}

look_up_all-All :
    {E : Type 0} (key_error : String → E) (P : StoryRunResult → Type 0)
    (d : Dict String StoryRunResult) (ks : List String) (outs : List StoryRunResult)
    → ((k : String) (o : StoryRunResult) → contains k ks ≡ true → get k d ≡ some o → P o)
    → look_up_all key_error ks d ≡ ok outs
    → All P outs
unfolding look_up_all look_up
look_up_all-All key_error P d [] outs each looked = ground arith
look_up_all-All key_error P d (k ∷ ks) outs each looked = elim (Option-cases (get k d)) [
  | inl missing ↦ absurd (ground arith)
  | inr (o, found) ↦ elim (Result-cases (look_up_all key_error ks d)) [
    | inl (e, raised) ↦ absurd (ground (arith, found, raised))
    | inr (rest, later) ↦
        let same : o ∷ rest ≡ outs = ground (arith, found, later) in
        subst (All P) same (
          each k o (ground (arith, beq_refl k)) found,
          look_up_all-All key_error P d ks rest (λ j p there. each j p (ground arith)) later,
        )
  ]
]

mark_deferred-id :
    (s : String) (o : StoryRunResult) (d : Dict String StoryRunResult)
    → Keyed id_of d
    → get s d ≡ some o
    → id_of (mark_deferred o) ≡ s
unfolding mark_deferred Keyed
mark_deferred-id s o d keyed found = keyed s o found

mark_deferred-fails :
    (k s : String) (o : StoryRunResult) (d : Dict String StoryRunResult)
    → latest_is is_failed (put s (mark_deferred o) d) k ≡ (latest_is is_failed d k && not (s == k))
unfolding mark_deferred is_failed
mark_deferred-fails k s o d = ground (arith, get-put s k (mark_deferred o) d)

module _ {E : Type 0} (key_error : String → E)
    (run : ℕ → StoryItem → List (String × Status) → Result E StoryRunResult) (budget : BuildBudget)
    (cap : ℕ) (items : List StoryItem) where
  -- The stories of the list are deferred, the others keep their results.
  defer_all-fails :
      (ss : List String) (d : Dict String StoryRunResult)
      → ((s : String) → contains s (ids_of items) ≡ true → is_some (get s d) ≡ true)
      → Keyed id_of d
      → ((s : String) → contains s ss ≡ true → contains s (ids_of items) ≡ true)
      → (end : Dict String StoryRunResult) × (defer_all key_error run budget cap items ss d
          ≡ ok end)
        × Keyed id_of end
        × ((s : String) → contains s (ids_of items) ≡ true → is_some (get s end) ≡ true)
        × ((s : String)
            → latest_is is_failed end s ≡ (latest_is is_failed d s && not (contains s ss)))
  unfolding defer_all look_up
  defer_all-fails [] d known keyed sub = (d, refl, keyed, known, λ s. ground arith)
  defer_all-fails (s ∷ ss) d known keyed sub =
      let here = sub s (ground (arith, beq_refl s)) in
      elim (Option-cases (get s d)) [
        | inl missing ↦ absurd (ground (arith, known s here))
        | inr (o, found) ↦ elim (Option-cases (get s (item_by_id items []))) [
          | inl no_item ↦ absurd (ground (arith, item_by_id-is_some s items []))
          | inr (it, item) ↦
              let next = put s (mark_deferred o) d in
              let (end, rest, kept, there, fails) =
                defer_all-fails ss next
                  (λ k known_k. ground (arith, known k known_k, get-put s k (mark_deferred o) d))
                  (Keyed-put id_of s (mark_deferred o) d (mark_deferred-id s o d keyed found) keyed)
                  (λ k there. sub k (ground arith)) in
              (
                end,
                ground (arith, found, item, rest),
                kept,
                there,
                λ k. ground (arith, fails k, mark_deferred-fails k s o d),
              )
        ]
      ]

  failed_ids-known :
      (d : Dict String StoryRunResult) (s : String)
      → contains s (failed_ids items d) ≡ (latest_is is_failed d s && contains s (ids_of items))
  unfolding failed_ids
  failed_ids-known d s = contains-keep_if s (latest_is is_failed d) (ids_of items)

  until_done_ends :
      ((n : ℕ) → Returning (run n))
      → 1 ≤ cap
      → (outs : List StoryRunResult) × (until_done key_error run budget cap items ≡ some (ok outs))
        × (result_ids outs ≡ ids_of items)
        × All (λ o. is_failed o.status ≡ false) outs
  unfolding until_done
  until_done_ends returns room =
      let (st, passed, inv) = build_passes_ends key_error run budget cap items returns room in
      let failures = failed_ids items st.latest in
      let (end, deferred_all, keyed, known, fails) =
        defer_all-fails failures st.latest inv.known inv.keyed
          (λ s there. ground (arith, failed_ids-known st.latest s)) in
      let (outs, looked, same) =
        look_up_all-Keyed id_of key_error end keyed (ids_of items)
          (All-contains (λ k. is_some (get k end) ≡ true) (ids_of items) known) in
      (
        outs,
        rw passed (ground (arith, deferred_all, looked)),
        same,
        look_up_all-All key_error (λ o. is_failed o.status ≡ false) end (ids_of items) outs
            (λ k o here found. ground (arith, fails k, failed_ids-known st.latest k)) looked,
      )

  -- Where every run returns, the passes of a build end, and there are no more of them than the
  -- attempt cap, which is one at least.
  pub build_passes_bounded :
      ((n : ℕ) → Returning (run n))
      → 1 ≤ cap
      → (end : BuildState) × (build_passes key_error run budget cap items ≡ some (ok end))
        × (length end.passes ≤ cap)
  build_passes_bounded returns room =
      let (end, passed, inv) = build_passes_ends key_error run budget cap items returns room in
      (end, passed, inv.bounded)

  -- The story is not run from one state to another, and keeps its result.
  abbrev Unrun : BuildState → String → BuildState → Type 0
  Unrun st s end =
      (get s end.latest ≡ get s st.latest)
      × (later : List (List String)) × (end.passes ≡ st.passes ++ later)
      × All (λ ids. contains s ids ≡ false) later

  idle_if_accepted :
      (st : BuildState) (s : String)
      → latest_is is_accepted st.latest s ≡ true
      → contains s (retryable cap items st) ≡ false
  unfolding is_failed is_accepted
  idle_if_accepted st s accepted =
      ground (arith, retryable-known cap items st s, Option-cases (get s st.latest))

  retry_keeps :
      (outs : List StoryRunResult) (st : BuildState) (s : String)
      → result_ids outs ≡ retryable cap items st
      → latest_is is_accepted st.latest s ≡ true
      → get s
          (record_results outs
            (with_pass key_error run budget cap items (retryable cap items st) st)).latest
        ≡ get s st.latest
  retry_keeps outs st s same accepted =
      let idle = idle_if_accepted st s accepted in
      record_results-other s outs
        (with_pass key_error run budget cap items (retryable cap items st) st) (rw same idle)

  -- Where every run returns, a story that a pass has accepted is not run again: no later pass of
  -- the loop has it among its stories, and its result stays to the end.
  pub repeat_keeps :
      ((n : ℕ) → Returning (run n))
      → (fuel : ℕ) (st end : BuildState) (s : String) → latest_is is_accepted st.latest s ≡ true
      → repeat key_error run budget cap items fuel st ≡ some (ok end)
      → (get s end.latest ≡ get s st.latest)
        × (later : List (List String)) × (end.passes ≡ st.passes ++ later)
        × All (λ ids. contains s ids ≡ false) later
  unfolding repeat
  repeat_keeps returns zero st end s accepted ends = absurd (ground arith)
  repeat_keeps returns (suc fuel) st end s accepted ends =
      elim (Bool-cases (
        is_empty (failed_ids items st.latest)
        || is_empty (retryable cap items st)
        || pool_exhausted budget st.pool_used)) [
          | inl stops ↦
              let same : st ≡ end = ground arith in
              subst (Unrun st s) same (refl, [], sym (append-nil st.passes), tt)
          | inr goes ↦
              let (outs, runs, ids) =
                retry_pass_returns key_error run budget cap items returns st in
              let next =
                record_results outs
                  (with_pass key_error run budget cap items (retryable cap items st) st) in
              let kept = retry_keeps outs st s ids accepted in
              let made =
                record_results-passes outs
                  (with_pass key_error run budget cap items (retryable cap items st) st) in
              elim (Bool-cases (no_progress key_error run budget cap items st next)) [
                | inl stuck ↦
                    let same : next ≡ end = ground arith in
                    subst (Unrun st s) same (
                      kept,
                      retryable cap items st ∷ [],
                      made,
                      (idle_if_accepted st s accepted, tt),
                    )
                | inr better ↦
                    let rest : repeat key_error run budget cap items fuel next ≡ some (ok end) =
                      ground arith in
                    let (stays, later, grown, unrun) =
                      repeat_keeps returns fuel next end s (rw (kept, latest_is) accepted) rest in
                    (
                      stays ∙ kept,
                      retryable cap items st ∷ later,
                      grown
                          ∙ ap (λ l. l ++ later) made
                          ∙ append_assoc st.passes (retryable cap items st ∷ []) later,
                      (idle_if_accepted st s accepted, unrun),
                    )
              ]
        ]

-- Where every run returns, the build ends with a result to every story of the plan, in its order,
-- and none of them is failed: a story that still fails is deferred.
pub run_story_plan_until_done_ends :
    {E : Type 0} (key_error : String → E)
    (run : ℕ → StoryItem → List (String × Status) → Result E StoryRunResult) (budget : BuildBudget)
    (max_story_attempts : ℕ) (items : List StoryItem)
    → ((n : ℕ) → Returning (run n))
    → (outs : List StoryRunResult) × (run_story_plan_until_done key_error run budget
          max_story_attempts items
        ≡ some (ok outs))
      × (result_ids outs ≡ ids_of items)
      × All (λ o. is_failed o.status ≡ false) outs
unfolding run_story_plan_until_done
run_story_plan_until_done_ends key_error run budget max_story_attempts items returns =
    until_done_ends key_error run budget (max 1 max_story_attempts) items returns (omega arith)
