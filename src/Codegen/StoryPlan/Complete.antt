-- ===== src/Codegen/StoryPlan/Complete.antt =====
-- The work-list holds every story, after its dependencies.
mod Examples
use cobol_java_migrator_v.Prelude.{
  ℕ, zero, suc, ◌+◌, ◌-◌, ◌≤◌, String, ◌≡◌, refl, ap, ◌∙◌, inl, inr, Option, some, List, [], ◌∷◌,
  ◌++◌, map, arith, Bool-cases, Option-cases, nat_eq, string_eq, pair_eq, option_eq, length,
  is_empty, count, count-append,
}
use mathlib.Core.Option
use cobol_java_migrator_v.Codegen.StoryPlan.{
  StoryItem, UserStory, Service, Domain, story_ids, all_emitted, place_ready, order_from,
  ordered_stories, service_of, item_of, build_story_codegen_plan,
}

-- A pass places or keeps each story.
place_ready-count :
    (s : String) (known emitted : List String) (ss : List UserStory)
    → let r = place_ready known emitted ss in
      count s (story_ids r.0) + count s (story_ids r.1) ≡ count s (story_ids ss)
unfolding place_ready
place_ready-count s known emitted [] = omega arith
place_ready-count s known emitted (x ∷ xs) =
    elim (Bool-cases (all_emitted known emitted x.depends_on)) [
      | inl ready ↦
          let rest = place_ready-count s known (emitted ++ x.id ∷ []) xs in ground (arith, ready)
      | inr waits ↦ let rest = place_ready-count s known emitted xs in ground (arith, waits)
    ]

place_ready-length :
    (known emitted : List String) (ss : List UserStory)
    → let r = place_ready known emitted ss in length r.0 + length r.1 ≡ length ss
unfolding place_ready
place_ready-length known emitted [] = omega arith
place_ready-length known emitted (x ∷ xs) =
    elim (Bool-cases (all_emitted known emitted x.depends_on)) [
      | inl ready ↦
          let rest = place_ready-length known (emitted ++ x.id ∷ []) xs in ground (arith, ready)
      | inr waits ↦ let rest = place_ready-length known emitted xs in ground (arith, waits)
    ]

story_ids-append : (xs ys : List UserStory) → story_ids (xs ++ ys) ≡ story_ids xs ++ story_ids ys
story_ids-append [] ys = refl
story_ids-append (x ∷ xs) ys = ap (λ l. x.id ∷ l) (story_ids-append xs ys)

order_from-count :
    (fuel : ℕ) (known emitted : List String) (ss : List UserStory)
    → length ss ≤ fuel
    → (order : List UserStory) × (order_from fuel known emitted ss ≡ some order)
      × ((s : String) → count s (story_ids order) ≡ count s (story_ids ss))
unfolding order_from
order_from-count zero known emitted [] enough = ([], refl, λ s. refl)
order_from-count (suc fuel) known emitted [] enough = ([], refl, λ s. refl)
order_from-count zero known emitted (x ∷ xs) enough = absurd (omega arith)
order_from-count (suc fuel) known emitted (x ∷ xs) enough =
    let round = place_ready known emitted (x ∷ xs) in
    let sizes = place_ready-length known emitted (x ∷ xs) in
    elim (Bool-cases (is_empty round.0)) [
      | inl stuck ↦ (
        round.1,
        rw (stuck, order_from) refl,
        λ s. ground (arith, place_ready-count s known emitted (x ∷ xs)),
      )
      | inr placed ↦
          let (order, rest, counts) =
            order_from-count fuel known (emitted ++ story_ids round.0) round.1 (ground arith) in
          (
            round.0 ++ order,
            ground (arith, placed, rest),
            λ s.
                let split =
                  ap (count s) (story_ids-append round.0 order)
                  ∙ count-append s (story_ids round.0) (story_ids order) in
                omega (arith, split, counts s, place_ready-count s known emitted (x ∷ xs)),
          )
    ]

item_of-ids :
    (services : List Service) (domain : Domain) (ss : List UserStory)
    → map (λ it. it.story_id) (map (item_of services domain) ss) ≡ story_ids ss
unfolding item_of
item_of-ids services domain [] = refl
item_of-ids services domain (s ∷ ss) =
    let same : (item_of services domain s).story_id ≡ s.id =
      ground (arith, Option-cases (service_of services s)) in
    rw (same, item_of-ids services domain ss) refl

-- The plan of a backlog is found whatever its dependencies are, and it has each story as often as
-- the backlog has it.
pub build_story_codegen_plan-count :
    (stories : List UserStory) (domain : Domain) (services : List Service)
    → (items : List StoryItem) × (build_story_codegen_plan stories domain services ≡ some items)
      × ((s : String) → count s (map (λ it. it.story_id) items) ≡ count s (story_ids stories))
unfolding build_story_codegen_plan ordered_stories
build_story_codegen_plan-count stories domain services =
    let (order, found, counts) =
      order_from-count (length stories) (story_ids stories) [] stories (omega arith) in
    (
      map (item_of services domain) order,
      rw found refl,
      λ s. ap (count s) (item_of-ids services domain order) ∙ counts s,
    )
