-- ===== src/StoryRunner/Waves.antt =====
-- The waves of a plan: they end, they hold every story, and they follow the dependencies.
mod Examples
use cobol_java_migrator_v.Prelude.{
  IsUnique, ℕ, zero, suc, ◌+◌, ◌-◌, ◌≤◌, ◌<◌, String, ◌≡◌, refl, ap, subst, inl, inr, Bool, true,
  false, not, Option, some, List, [], ◌∷◌, ◌++◌, arith, Bool-cases, nat_eq, string_eq, pair_eq,
  option_eq, beq_refl, length, is_empty, keep_if, length-keep_if-le, contains,
}
use mathlib.Core.Option
use mathlib.Core.List.{Perm, perm_middle}
use mathlib.Core.List.Perm
use cobol_java_migrator_v.Codegen.StoryPlan.{StoryItem, all_emitted}
use cobol_java_migrator_v.StoryRunner.{ids_of, next_wave, without, waves_from, dependency_waves}

-- What next_wave gives is a part of the remaining items, and an item at least.
keep_all : (xs : List StoryItem) → keep_if (λ _. true) xs ≡ xs
keep_all [] = refl
keep_all (x ∷ xs) = ap (λ l. x ∷ l) (keep_all xs)

next_wave-keeps :
    (known emitted : List String) (xs : List StoryItem)
    → is_empty xs ≡ false
    → (q : StoryItem → Bool) × (next_wave known emitted xs ≡ keep_if q xs)
      × (is_empty (keep_if q xs) ≡ false)
unfolding next_wave
next_wave-keeps known emitted xs nonempty =
    let q = λ (it : StoryItem). all_emitted known emitted it.depends_on in
    elim (Bool-cases (is_empty (keep_if q xs))) [
      | inl none_ready ↦ (λ _. true, ground (arith, keep_all xs), rw (keep_all xs) nonempty)
      | inr some_ready ↦ (q, ground arith, some_ready)
    ]

-- Some item of a part that is not empty goes, where its ids are taken away.
length-without :
    (q : StoryItem → Bool) (xs : List StoryItem) (ids : List String)
    → is_empty (keep_if q xs) ≡ false
    → ((s : String) → contains s (ids_of (keep_if q xs)) ≡ true → contains s ids ≡ true)
    → length (without ids xs) < length xs
unfolding without
length-without q [] ids nonempty sub = ground arith
length-without q (x ∷ xs) ids nonempty sub = elim (Bool-cases (q x)) [
  | inl keeps ↦
      let here = sub x.story_id (ground (arith, beq_refl x.story_id)) in
      ground (arith, length-keep_if-le (λ it. not (contains it.story_id ids)) xs)
  | inr drops ↦ ground (arith, length-without q xs ids (ground arith) (λ s h. sub s (ground arith)))
]

pub wave_shrinks :
    (known emitted : List String) (xs : List StoryItem)
    → is_empty xs ≡ false
    → length (without (ids_of (next_wave known emitted xs)) xs) < length xs
wave_shrinks known emitted xs nonempty =
    let (q, same, some_kept) = next_wave-keeps known emitted xs nonempty in
    length-without q xs (ids_of (next_wave known emitted xs)) some_kept (λ s h. rw same h)

waves_from_ends :
    (fuel : ℕ) (known emitted : List String) (xs : List StoryItem)
    → length xs ≤ fuel
    → (ws : List (List StoryItem)) × (waves_from fuel known emitted xs ≡ some ws)
unfolding waves_from
waves_from_ends zero known emitted [] enough = ([], refl)
waves_from_ends (suc fuel) known emitted [] enough = ([], refl)
waves_from_ends zero known emitted (x ∷ xs) enough = absurd (omega arith)
waves_from_ends (suc fuel) known emitted (x ∷ xs) enough =
    let shrinks = wave_shrinks known emitted (x ∷ xs) refl in
    let wave = next_wave known emitted (x ∷ xs) in
    let (ws, rest) =
      waves_from_ends fuel known (emitted ++ ids_of wave) (without (ids_of wave) (x ∷ xs))
        (omega arith) in
    (wave ∷ ws, rw rest refl)

-- The plan is cut into waves, whatever its dependencies are.
dependency_waves_ends :
    (items : List StoryItem) → (ws : List (List StoryItem)) × (dependency_waves items ≡ some ws)
unfolding dependency_waves
dependency_waves_ends items = waves_from_ends (length items) (ids_of items) [] items (omega arith)

unfoldable pub all_of : List (List StoryItem) → List StoryItem
all_of [] = []
all_of (w ∷ ws) = w ++ all_of ws

-- In a list without repeated ids, what is left has just the items that the wave has not.
contains-ids_of_keep :
    (q : StoryItem → Bool) (s : String) (xs : List StoryItem)
    → contains s (ids_of xs) ≡ false
    → contains s (ids_of (keep_if q xs)) ≡ false
contains-ids_of_keep q s [] h = refl
contains-ids_of_keep q s (x ∷ xs) h = ground (arith, contains-ids_of_keep q s xs)

IsUnique-keep_if :
    (q : StoryItem → Bool) (xs : List StoryItem)
    → IsUnique (ids_of xs)
    → IsUnique (ids_of (keep_if q xs))
IsUnique-keep_if q [] u = u
IsUnique-keep_if q (x ∷ xs) (fresh, u) =
    ground (arith, IsUnique-keep_if q xs u, contains-ids_of_keep q x.story_id xs fresh)

without-head :
    (x : StoryItem) (ids : List String) (xs : List StoryItem)
    → contains x.story_id (ids_of xs) ≡ false
    → without (x.story_id ∷ ids) xs ≡ without ids xs
unfolding without
without-head x ids [] fresh = refl
without-head x ids (y ∷ ys) fresh = ground (
  arith,
  without-head x ids ys,
  string_eq.beq_iff x.story_id y.story_id,
  string_eq.beq_iff y.story_id x.story_id,
)

without-keep_if :
    (q : StoryItem → Bool) (xs : List StoryItem)
    → IsUnique (ids_of xs)
    → without (ids_of (keep_if q xs)) xs ≡ keep_if (λ it. not (q it)) xs
unfolding without
without-keep_if q [] u = refl
without-keep_if q (x ∷ xs) (fresh, u) = ground (
  arith,
  without-keep_if q xs u,
  beq_refl x.story_id,
  without-head x (ids_of (keep_if q xs)) xs fresh,
  contains-ids_of_keep q x.story_id xs fresh,
)

partition-perm :
    (q : StoryItem → Bool) (xs : List StoryItem)
    → Perm (keep_if q xs ++ keep_if (λ it. not (q it)) xs) xs
partition-perm q [] = Perm.refl []
partition-perm q (x ∷ xs) = elim (Bool-cases (q x)) [
  | inl yes_q ↦ rw yes_q (Perm.cons x (partition-perm q xs))
  | inr no_q ↦ rw no_q (
      Perm.trans (perm_middle (keep_if q xs) (keep_if (λ it. not (q it)) xs))
        (Perm.cons x (partition-perm q xs)))
]

waves_from-perm :
    (fuel : ℕ) (known emitted : List String) (xs : List StoryItem)
    → length xs ≤ fuel
    → IsUnique (ids_of xs)
    → (ws : List (List StoryItem)) × (waves_from fuel known emitted xs ≡ some ws)
      × Perm (all_of ws) xs
unfolding waves_from all_of
waves_from-perm zero known emitted [] enough u = ([], refl, Perm.refl [])
waves_from-perm (suc fuel) known emitted [] enough u = ([], refl, Perm.refl [])
waves_from-perm zero known emitted (x ∷ xs) enough u = absurd (omega arith)
waves_from-perm (suc fuel) known emitted (x ∷ xs) enough u =
    let shrinks = wave_shrinks known emitted (x ∷ xs) refl in
    let wave = next_wave known emitted (x ∷ xs) in
    let (q, same, some_kept) = next_wave-keeps known emitted (x ∷ xs) refl in
    let left : without (ids_of wave) (x ∷ xs) ≡ keep_if (λ it. not (q it)) (x ∷ xs) =
      rw same (without-keep_if q (x ∷ xs) u) in
    let (ws, rest, perm) =
      waves_from-perm fuel known (emitted ++ ids_of wave) (without (ids_of wave) (x ∷ xs))
        (omega arith) (rw left (IsUnique-keep_if (λ it. not (q it)) (x ∷ xs) u)) in
    (
      wave ∷ ws,
      rw rest refl,
      Perm.trans (Perm.append_left wave (subst (λ l. Perm (all_of ws) l) left perm))
          (rw same (partition-perm q (x ∷ xs))),
    )

-- Where no story id stands twice, the waves hold every item of the plan exactly once.
pub dependency_waves-perm :
    (items : List StoryItem)
    → IsUnique (ids_of items)
    → (ws : List (List StoryItem)) × (dependency_waves items ≡ some ws) × Perm (all_of ws) items
unfolding dependency_waves
dependency_waves-perm items u =
    waves_from-perm (length items) (ids_of items) [] items (omega arith) u
