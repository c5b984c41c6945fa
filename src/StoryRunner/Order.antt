-- ===== src/StoryRunner/Order.antt =====
-- The waves follow the dependencies.
use cobol_java_migrator_v.Prelude.{
  ℕ, zero, suc, ◌≤◌, String, ◌≡◌, refl, ◌⊎◌, inl, inr, Bool, true, false, some, List, [], ◌∷◌, ◌++◌,
  arith, Bool-cases, nat_eq, string_eq, pair_eq, option_eq, beq_refl, length, is_empty, keep_if,
  All, contains,
}
use cobol_java_migrator_v.Codegen.StoryPlan.{StoryItem, all_emitted}
use cobol_java_migrator_v.StoryRunner.{ids_of, next_wave, without, waves_from, dependency_waves}
use cobol_java_migrator_v.StoryRunner.Waves.{wave_shrinks}

-- Every item of a wave has its dependencies in earlier waves: of all waves, or of all but the last.
abbrev pub IsReady : List String → List String → StoryItem → Type 0
IsReady known emitted it = all_emitted known emitted it.depends_on ≡ true

unfoldable pub InOrder : List String → List String → List (List StoryItem) → Type 0
InOrder known emitted [] = Unit
InOrder known emitted (w ∷ ws) =
    All (IsReady known emitted) w × InOrder known (emitted ++ ids_of w) ws

InOrderButLast : List String → List String → List (List StoryItem) → Type 0
InOrderButLast known emitted [] = Unit
InOrderButLast known emitted (w ∷ ws) =
    (All (IsReady known emitted) w ⊎ (ws ≡ [])) × InOrderButLast known (emitted ++ ids_of w) ws

keep_if-All : (p : StoryItem → Bool) (xs : List StoryItem) → All (λ it. p it ≡ true) (keep_if p xs)
keep_if-All p [] = tt
keep_if-All p (x ∷ xs) = ground (arith, keep_if-All p xs)

none_kept :
    (p : StoryItem → Bool) (xs : List StoryItem)
    → is_empty (keep_if p xs) ≡ true
    → All (λ it. p it ≡ false) xs
none_kept p [] h = tt
none_kept p (x ∷ xs) h = ground (arith, none_kept p xs)

without-all :
    (xs : List StoryItem) (ids : List String)
    → ((s : String) → contains s (ids_of xs) ≡ true → contains s ids ≡ true)
    → without ids xs ≡ []
unfolding without
without-all [] ids sub = refl
without-all (x ∷ xs) ids sub =
    let here = sub x.story_id (ground (arith, beq_refl x.story_id)) in
    let rest = without-all xs ids (λ s h. sub s (ground arith)) in ground arith

waves_from_empty :
    (fuel : ℕ) (known emitted : List String) → waves_from fuel known emitted [] ≡ some []
unfolding waves_from
waves_from_empty zero known emitted = refl
waves_from_empty (suc fuel) known emitted = refl

-- A wave is of items that are ready, or of all that remain where none is.
pub next_wave-cases :
    (known emitted : List String) (xs : List StoryItem)
    → All (IsReady known emitted) (next_wave known emitted xs)
      ⊎ ((next_wave known emitted xs ≡ xs)
          × All (λ it. all_emitted known emitted it.depends_on ≡ false) xs)
unfolding next_wave
next_wave-cases known emitted xs =
    let ready = λ (it : StoryItem). all_emitted known emitted it.depends_on in
    elim (Bool-cases (is_empty (keep_if ready xs))) [
      | inl none_ready ↦ inr (rw none_ready refl, none_kept ready xs none_ready)
      | inr some_ready ↦ inl (rw some_ready (keep_if-All ready xs))
    ]

wave-IsReady :
    (fuel : ℕ) (known emitted : List String) (xs : List StoryItem) (ws : List (List StoryItem))
    → waves_from fuel known
        (emitted ++ ids_of (next_wave known emitted xs))
        (without (ids_of (next_wave known emitted xs)) xs)
      ≡ some ws
    → All (IsReady known emitted) (next_wave known emitted xs) ⊎ (ws ≡ [])
wave-IsReady fuel known emitted xs ws rest = elim (next_wave-cases known emitted xs) [
  | inl ready ↦ inl ready
  | inr (whole, stuck) ↦
      let gone : without (ids_of (next_wave known emitted xs)) xs ≡ [] =
        rw whole (without-all xs (ids_of xs) (λ s h. h)) in
      let empty = waves_from_empty fuel known (emitted ++ ids_of (next_wave known emitted xs)) in
      inr (ground (arith, rw gone at rest))
]

waves_from-InOrderButLast :
    (fuel : ℕ) (known emitted : List String) (xs : List StoryItem)
    → length xs ≤ fuel
    → (ws : List (List StoryItem)) × (waves_from fuel known emitted xs ≡ some ws)
      × InOrderButLast known emitted ws
unfolding waves_from InOrderButLast
waves_from-InOrderButLast zero known emitted [] enough = ([], refl, tt)
waves_from-InOrderButLast (suc fuel) known emitted [] enough = ([], refl, tt)
waves_from-InOrderButLast zero known emitted (x ∷ xs) enough = absurd (omega arith)
waves_from-InOrderButLast (suc fuel) known emitted (x ∷ xs) enough =
    let shrinks = wave_shrinks known emitted (x ∷ xs) refl in
    let wave = next_wave known emitted (x ∷ xs) in
    let (ws, rest, ordered) =
      waves_from-InOrderButLast fuel known (emitted ++ ids_of wave) (without (ids_of wave) (x ∷ xs))
        (omega arith) in
    (wave ∷ ws, rw rest refl, (wave-IsReady fuel known emitted (x ∷ xs) ws rest, ordered))

-- In every plan, even one with a cycle, the dependencies of an item stand in waves before its own,
-- but for the last wave.
dependency_waves-InOrderButLast :
    (items : List StoryItem)
    → (ws : List (List StoryItem)) × (dependency_waves items ≡ some ws)
      × InOrderButLast (ids_of items) [] ws
unfolding dependency_waves
dependency_waves-InOrderButLast items =
    waves_from-InOrderButLast (length items) (ids_of items) [] items (omega arith)

pub contains-without :
    (s : String) (ids : List String) (xs : List StoryItem)
    → contains s (ids_of xs) ≡ true
    → contains s ids ≡ false
    → contains s (ids_of (without ids xs)) ≡ true
unfolding without
contains-without s ids [] here fresh = here
contains-without s ids (x ∷ xs) here fresh =
    ground (arith, contains-without s ids xs, string_eq.beq_iff x.story_id s)
