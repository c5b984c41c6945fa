-- ===== src/StoryRunner/Acyclic.antt =====
-- The waves of an acyclic plan.
mod Examples
use cobol_java_migrator_v.Prelude.{
  ℕ, zero, suc, ◌+◌, ◌-◌, ◌≤◌, ◌<◌, String, ◌≡◌, refl, subst, inl, inr, Bool, true, false, not,
  Option, some, List, [], ◌∷◌, ◌++◌, arith, Bool-cases, ◌==◌, nat_eq, string_eq, pair_eq, option_eq,
  length, keep_if, All, contains, contains-append,
}
use mathlib.Core.Option
use cobol_java_migrator_v.Codegen.StoryPlan.{StoryItem, all_emitted}
use cobol_java_migrator_v.StoryRunner.{ids_of, next_wave, without, waves_from, dependency_waves}
use cobol_java_migrator_v.StoryRunner.Waves.{wave_shrinks}
use cobol_java_migrator_v.StoryRunner.Order.{IsReady, InOrder, next_wave-cases, contains-without}

-- An acyclic plan: `rank` falls from an item to each dependency that is in the plan.
module _ (rank : String → ℕ) where
  abbrev pub Descends : List String → StoryItem → Type 0
  Descends known it = All (λ d. contains d known ≡ true → rank d < rank it.story_id) it.depends_on

  unmet :
      (known emitted : List String) (n : ℕ) (deps : List String)
      → all_emitted known emitted deps ≡ false
      → All (λ d. contains d known ≡ true → rank d < n) deps
      → (d : String) × (contains d known ≡ true) × (contains d emitted ≡ false) × (rank d < n)
  unmet known emitted n [] h lower = absurd (ground arith)
  unmet known emitted n (d ∷ ds) h (l, lower) = elim (Bool-cases (contains d known)) [
    | inl here ↦ elim (Bool-cases (contains d emitted)) [
      | inl done ↦ unmet known emitted n ds (ground arith) lower
      | inr waiting ↦ (d, here, waiting, l here)
    ]
    | inr outside ↦ unmet known emitted n ds (ground arith) lower
  ]

  rank_of :
      (n : ℕ) (d : String) (xs : List StoryItem)
      → All (λ it. n ≤ rank it.story_id) xs
      → contains d (ids_of xs) ≡ true
      → n ≤ rank d
  rank_of n d [] h here = absurd (ground arith)
  rank_of n d (x ∷ xs) (h, hs) here = elim (Bool-cases (x.story_id == d)) [
    | inl same ↦ subst (λ s. n ≤ rank s) ((string_eq.beq_iff x.story_id d).0 same) h
    | inr other ↦ rank_of n d xs hs (ground arith)
  ]

  -- Items that wait for each other have no rank.
  raise :
      (known emitted : List String) (n : ℕ) (ys : List StoryItem)
      → ((d : String) → contains d known ≡ true → contains d emitted ≡ false → n ≤ rank d)
      → All (λ it. all_emitted known emitted it.depends_on ≡ false) ys
      → All (Descends known) ys
      → All (λ it. suc n ≤ rank it.story_id) ys
  raise known emitted n [] floor stuck low = tt
  raise known emitted n (y ∷ ys) floor (s, stuck) (l, low) =
      let (d, here, waiting, lower) = unmet known emitted (rank y.story_id) y.depends_on s l in
      let bound = floor d here waiting in (omega arith, raise known emitted n ys floor stuck low)

  above :
      (known emitted : List String) (xs : List StoryItem) (n : ℕ)
      → ((s : String)
          → contains s known ≡ true
          → contains s emitted ≡ false
          → contains s (ids_of xs) ≡ true)
      → All (λ it. all_emitted known emitted it.depends_on ≡ false) xs
      → All (Descends known) xs
      → All (λ it. n ≤ rank it.story_id) xs
  above known emitted xs zero waits stuck low = all_zero xs
    where
      all_zero : (ys : List StoryItem) → All (λ it. 0 ≤ rank it.story_id) ys
      all_zero [] = tt
      all_zero (y ∷ ys) = (omega arith, all_zero ys)
  above known emitted xs (suc n) waits stuck low =
      let ih = above known emitted xs n waits stuck low in
      raise known emitted n xs (λ d here waiting. rank_of n d xs ih (waits d here waiting)) stuck
        low

  never_stuck :
      (known emitted : List String) (x : StoryItem) (xs : List StoryItem)
      → ((s : String)
          → contains s known ≡ true
          → contains s emitted ≡ false
          → contains s (ids_of (x ∷ xs)) ≡ true)
      → All (Descends known) (x ∷ xs)
      → All (IsReady known emitted) (next_wave known emitted (x ∷ xs))
  never_stuck known emitted x xs waits low = elim (next_wave-cases known emitted (x ∷ xs)) [
    | inl ready ↦ ready
    | inr (whole, stuck) ↦
        let high = above known emitted (x ∷ xs) (suc (rank x.story_id)) waits stuck low in
        absurd (omega (arith, high.0))
  ]

  All-keep_if :
      (known : List String) (p : StoryItem → Bool) (xs : List StoryItem)
      → All (Descends known) xs
      → All (Descends known) (keep_if p xs)
  All-keep_if known p [] h = tt
  All-keep_if known p (x ∷ xs) (h, hs) = elim (Bool-cases (p x)) [
    | inl keeps ↦ rw keeps (h, All-keep_if known p xs hs)
    | inr drops ↦ rw drops (All-keep_if known p xs hs)
  ]

  waves_from-InOrder :
      (fuel : ℕ) (known emitted : List String) (xs : List StoryItem)
      → length xs ≤ fuel
      → ((s : String)
          → contains s known ≡ true
          → contains s emitted ≡ false
          → contains s (ids_of xs) ≡ true)
      → All (Descends known) xs
      → (ws : List (List StoryItem)) × (waves_from fuel known emitted xs ≡ some ws)
        × InOrder known emitted ws
  unfolding waves_from InOrder without
  waves_from-InOrder zero known emitted [] enough waits low = ([], refl, tt)
  waves_from-InOrder (suc fuel) known emitted [] enough waits low = ([], refl, tt)
  waves_from-InOrder zero known emitted (x ∷ xs) enough waits low = absurd (omega arith)
  waves_from-InOrder (suc fuel) known emitted (x ∷ xs) enough waits low =
      let shrinks = wave_shrinks known emitted (x ∷ xs) refl in
      let wave = next_wave known emitted (x ∷ xs) in
      let (ws, rest, ordered) =
        waves_from-InOrder fuel known (emitted ++ ids_of wave) (without (ids_of wave) (x ∷ xs))
          (omega arith)
          (λ s here waiting.
            contains-without s (ids_of wave) (x ∷ xs)
              (waits s here (ground (arith, contains-append s emitted (ids_of wave))))
              (ground (arith, contains-append s emitted (ids_of wave))))
          (All-keep_if known (λ it. not (contains it.story_id (ids_of wave))) (x ∷ xs) low) in
      (wave ∷ ws, rw rest refl, (never_stuck known emitted x xs waits low, ordered))

-- In an acyclic plan, one where some rank falls from each item to its dependencies in the plan,
-- the dependencies of every item stand in waves before its own.
pub dependency_waves-InOrder :
    (rank : String → ℕ) (items : List StoryItem)
    → All (Descends rank (ids_of items)) items
    → (ws : List (List StoryItem)) × (dependency_waves items ≡ some ws)
      × InOrder (ids_of items) [] ws
unfolding dependency_waves
dependency_waves-InOrder rank items low =
    waves_from-InOrder rank (length items) (ids_of items) [] items (omega arith)
      (λ s here none_yet. here) low
