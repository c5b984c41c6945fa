-- ===== src/StoryRunner/Plan/Returns.antt =====
-- A pass over a plan gives the results in the plan's order.
use cobol_java_migrator_v.Prelude.{
  All-contains, ℕ, zero, suc, ◌≤◌, String, ◌≡◌, refl, ap, inl, inr, true, ◌||◌, some, List, [], ◌∷◌,
  ◌++◌, map, arith, Bool-cases, Option-cases, is_some, Result, ok, nat_eq, string_eq, pair_eq,
  option_eq, length, All, contains, contains-append,
}
use cobol_java_migrator_v.Prelude.Dict.{Dict, get, put, get-put}
use cobol_java_migrator_v.Codegen.Budget.{Status}
use cobol_java_migrator_v.Codegen.StoryPlan.{StoryItem}
use cobol_java_migrator_v.StoryRunner.{ids_of, next_wave, without, waves_from, dependency_waves}
use cobol_java_migrator_v.StoryRunner.Waves.{all_of, wave_shrinks}
use cobol_java_migrator_v.StoryRunner.Order.{contains-without}
use cobol_java_migrator_v.StoryRunner.Plan.{
  StoryRunResult, result_ids, put_results, look_up, look_up_all, gather, run_waves, run_story_plan,
}

-- Every story of the plan stands in some wave.
waves_from-contains :
    (fuel : ℕ) (known emitted : List String) (xs : List StoryItem)
    → length xs ≤ fuel
    → (ws : List (List StoryItem)) × (waves_from fuel known emitted xs ≡ some ws)
      × ((s : String) → contains s (ids_of xs) ≡ true → contains s (ids_of (all_of ws)) ≡ true)
unfolding waves_from all_of
waves_from-contains zero known emitted [] enough = ([], refl, λ s h. h)
waves_from-contains (suc fuel) known emitted [] enough = ([], refl, λ s h. h)
waves_from-contains zero known emitted (x ∷ xs) enough = absurd (omega arith)
waves_from-contains (suc fuel) known emitted (x ∷ xs) enough =
    let shrinks = wave_shrinks known emitted (x ∷ xs) refl in
    let wave = next_wave known emitted (x ∷ xs) in
    let (ws, rest, all_there) =
      waves_from-contains fuel known (emitted ++ ids_of wave) (without (ids_of wave) (x ∷ xs))
        (omega arith) in
    (
      wave ∷ ws,
      rw rest refl,
      λ s h.
          let parts = ids_of-append wave (all_of ws) in
          let split = contains-append s (ids_of wave) (ids_of (all_of ws)) in
          elim (Bool-cases (contains s (ids_of wave))) [
            | inl here ↦ ground (arith, parts, split)
            | inr later ↦
                let left = all_there s (contains-without s (ids_of wave) (x ∷ xs) h later) in
                ground (arith, parts, split)
          ],
    )
  where
    ids_of-append : (xs ys : List StoryItem) → ids_of (xs ++ ys) ≡ ids_of xs ++ ids_of ys
    ids_of-append [] ys = refl
    ids_of-append (x ∷ xs) ys = ap (λ l. x.story_id ∷ l) (ids_of-append xs ys)

-- Each entry of a dict has its key, by the field that `key` reads.
module _ {V : Type 0} (key : V → String) where
  unfoldable pub Keyed : Dict String V → Type 0
  Keyed d = (s : String) (v : V) → get s d ≡ some v → key v ≡ s

  pub Keyed-empty : Keyed []
  unfolding Keyed get
  Keyed-empty s v found = ground arith

  pub Keyed-put : (k : String) (v : V) (d : Dict String V) → key v ≡ k → Keyed d → Keyed (put k v d)
  unfolding Keyed
  Keyed-put k v d same h s w found =
      ground (arith, get-put k s v d, string_eq.beq_iff k s, h s w, ap key)

  pub look_up_all-Keyed :
      {E : Type 0} (key_error : String → E) (d : Dict String V)
      → Keyed d
      → (ks : List String) → All (λ k. is_some (get k d) ≡ true) ks
      → (vs : List V) × (look_up_all key_error ks d ≡ ok vs) × (map key vs ≡ ks)
  unfolding Keyed look_up look_up_all
  look_up_all-Keyed key_error d h [] there = ([], refl, refl)
  look_up_all-Keyed key_error d h (k ∷ ks) (t, there) = elim (Option-cases (get k d)) [
    | inl missing ↦ absurd (ground arith)
    | inr (v, found) ↦
        let (vs, rest, ids) = look_up_all-Keyed key_error d h ks there in
        (v ∷ vs, ground (arith, found, rest), rw (h k v found, ids) refl)
  ]

abbrev pub id_of : StoryRunResult → String
id_of o = o.story_id

-- Runs that return, each with a result of its story.
abbrev pub Returning :
    {E : Type 0} → (StoryItem → List (String × Status) → Result E StoryRunResult) → Type 0
Returning run =
    (it : StoryItem) (prior : List (String × Status))
    → (o : StoryRunResult) × (run it prior ≡ ok o) × (o.story_id ≡ it.story_id)

module _ {E : Type 0} (key_error : String → E)
    (run : ℕ → StoryItem → List (String × Status) → Result E StoryRunResult) (n : ℕ)
    (returns : Returning (run n)) where
  gather_returns :
      (prior : List (String × Status)) (its : List StoryItem)
      → (outs : List StoryRunResult) × (gather key_error run n prior its ≡ ok outs)
        × (result_ids outs ≡ ids_of its)
  unfolding gather
  gather_returns prior [] = ([], refl, refl)
  gather_returns prior (it ∷ its) =
      let (o, runs, id) = returns it prior in
      let (outs, rest, ids) = gather_returns prior its in
      (o ∷ outs, ground (arith, runs, rest), rw (id, ids) refl)

  put_results-Keyed :
      (its : List StoryItem) (outs : List StoryRunResult) (d : Dict String StoryRunResult)
      → result_ids outs ≡ ids_of its
      → Keyed id_of d
      → Keyed id_of (put_results its outs d)
  unfolding put_results
  put_results-Keyed [] outs d ids h = h
  put_results-Keyed (it ∷ its) [] d ids h = h
  put_results-Keyed (it ∷ its) (o ∷ outs) d ids h =
      put_results-Keyed its outs (put it.story_id o d) (cc) (Keyed-put id_of it.story_id o d (cc) h)

  put_results-is_some :
      (s : String) (its : List StoryItem) (outs : List StoryRunResult)
      (d : Dict String StoryRunResult)
      → result_ids outs ≡ ids_of its
      → (contains s (ids_of its) || is_some (get s d)) ≡ true
      → is_some (get s (put_results its outs d)) ≡ true
  unfolding put_results
  put_results-is_some s [] outs d ids h = h
  put_results-is_some s (it ∷ its) [] d ids h = absurd (cc)
  put_results-is_some s (it ∷ its) (o ∷ outs) d ids h =
      put_results-is_some s its outs (put it.story_id o d) (cc)
        (ground (arith, get-put it.story_id s o d))

  run_waves_returns :
      (ws : List (List StoryItem)) (d : Dict String StoryRunResult)
      (summaries : List (String × Status))
      → Keyed id_of d
      → (by_id : Dict String StoryRunResult) × (run_waves key_error run n ws d summaries ≡ ok by_id)
        × Keyed id_of by_id
        × ((s : String)
            → (contains s (ids_of (all_of ws)) || is_some (get s d)) ≡ true
            → is_some (get s by_id) ≡ true)
  unfolding run_waves all_of
  run_waves_returns [] d summaries h = (d, refl, h, λ s there. there)
  run_waves_returns (wave ∷ ws) d summaries h =
      let (outs, runs, ids) = gather_returns summaries wave in
      let next = put_results wave outs d in
      let (done, looked, _) =
        look_up_all-Keyed id_of key_error next (put_results-Keyed wave outs d ids h) (ids_of wave) (
          All-contains (λ k. is_some (get k next) ≡ true) (ids_of wave)
            (λ k there. put_results-is_some k wave outs d ids (ground arith))) in
      let (by_id, rest, keyed, full) =
        run_waves_returns ws next (summaries ++ map (λ o. (o.story_id, o.status)) done)
          (put_results-Keyed wave outs d ids h) in
      (
        by_id,
        ground (arith, runs, looked, rest),
        keyed,
        λ s there.
            let parts = contains-all_of s wave ws in
            let put_there = put_results-is_some s wave outs d ids in
            full s (ground (arith, parts, put_there)),
      )
    where
      contains-all_of :
          (s : String) (xs : List StoryItem) (ws : List (List StoryItem))
          → contains s (ids_of (xs ++ all_of ws))
            ≡ (contains s (ids_of xs) || contains s (ids_of (all_of ws)))
      contains-all_of s [] ws = refl
      contains-all_of s (x ∷ xs) ws = ground (arith, contains-all_of s xs ws)

  -- Where every run returns a result of its story, the pass gives the results in the plan's order,
  -- whatever the dependencies and the ids of its items are.
  pub run_story_plan_returns :
      (items : List StoryItem)
      → (outs : List StoryRunResult) × (run_story_plan key_error run n items ≡ some (ok outs))
        × (result_ids outs ≡ ids_of items)
  unfolding run_story_plan dependency_waves
  run_story_plan_returns items =
      let (ws, cut, full) =
        waves_from-contains (length items) (ids_of items) [] items (omega arith) in
      let (by_id, runs, keyed, there) = run_waves_returns ws [] [] (Keyed-empty id_of) in
      let (outs, looked, ids) = look_up_all-Keyed id_of key_error by_id keyed (ids_of items) (
        All-contains (λ k. is_some (get k by_id) ≡ true) (ids_of items)
          (λ k h. there k (ground (arith, full k h)))) in
      (outs, rw cut (ground (arith, runs, looked)), ids)
