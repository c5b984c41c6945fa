-- ===== src/Codegen/StoryPlan.antt =====
-- The work-list of a backlog (src/cobol_modernizer/codegen/story_plan.py): the stories in an order
-- that follows their dependencies, each with the service it is mapped to.
mod Complete
use cobol_java_migrator_v.Prelude.{
  ℕ, zero, suc, String, Bool, not, ◌&&◌, ◌||◌, Option, none, some, List, [], ◌∷◌, ◌++◌, map, nat_eq,
  string_eq, pair_eq, option_eq, length, is_empty, keep_if, all, contains, if◌then◌else◌, ◌==◌,
}
use mathlib.Core.Option
use cobol_java_migrator_v.Prelude.Dict.{Dict, get, put}
use cobol_java_migrator_v.Codegen.Budget.{Status, pending, blocked}

pub record StoryItem : Type 0 where
  pub story_id : String
  pub bounded_context : String
  pub service_name : String
  pub acceptance_criteria_ids : List String
  pub cobol_refs : List String
  pub depends_on : List String
  pub status : Status

-- The parts of UserStory, TechnicalService, BoundedContext and DomainDesign that the plan reads.
pub record UserStory : Type 0 where
  pub id : String
  pub context : String
  pub acceptance_criteria : List String
  pub evidence_refs : List String
  pub depends_on : List String

pub record Service : Type 0 where
  pub name : String
  pub bounded_context : String
  pub story_ids : List String
  pub evidence_refs : List String

pub record DesignContext : Type 0 where
  pub name : String
  pub member_programs : List String

pub record ContextDesign : Type 0 where
  pub context : String
  pub cobol_refs : List String

pub record Domain : Type 0 where
  pub contexts : List DesignContext
  pub designs : List ContextDesign

abbrev pub story_ids : List UserStory → List String
story_ids = map (λ s. s.id)

-- all(d in emitted for d in depends_on if d in known)
abbrev pub all_emitted : List String → List String → List String → Bool
all_emitted known emitted deps = all (λ d. not (contains d known) || contains d emitted) deps

-- One pass of the for loop: the stories it places and those that are still to place. What a pass
-- places counts as emitted at once.
pub place_ready : List String → List String → List UserStory → List UserStory × List UserStory
place_ready known emitted [] = ([], [])
place_ready known emitted (s ∷ ss) =
    let ready = all_emitted known emitted s.depends_on in
    let rest = place_ready known (if ready then emitted ++ s.id ∷ [] else emitted) ss in
    if ready then (s ∷ rest.0, rest.1) else (rest.0, s ∷ rest.1)

-- The while loop, on fuel: none where it runs out. A pass that places nothing is the last.
pub order_from : ℕ → List String → List String → List UserStory → Option (List UserStory)
order_from zero known emitted remaining = if is_empty remaining then some [] else none
order_from (suc fuel) known emitted remaining =
    let round = place_ready known emitted remaining in
    let rest = order_from fuel known (emitted ++ story_ids round.0) round.1 in
    if is_empty remaining
    then some []
    else if is_empty round.0
    then some round.1
    else Option.map (λ order. round.0 ++ order) rest

pub ordered_stories : List UserStory → Option (List UserStory)
ordered_stories stories = order_from (length stories) (story_ids stories) [] stories

-- _dedupe: the first of each, without empty texts.
unfoldable dedupe_from : List String → List String → List String
dedupe_from seen [] = []
dedupe_from seen (r ∷ rs) =
    let skips = r == "" || contains r seen in
    let rest = dedupe_from (if skips then seen else r ∷ seen) rs in if skips then rest else r ∷ rest

unfoldable dedupe : List String → List String
dedupe = dedupe_from []

-- mapping.setdefault(key, svc) for the keys of each service: the first service of a key.
unfoldable pub set_default : List String → Service → Dict String Service → Dict String Service
set_default [] svc d = d
set_default (k ∷ ks) svc d =
    set_default ks svc (elim (get k d) [ none ↦ put k svc d | some first ↦ d ])

unfoldable pub service_by :
    (Service → List String) → List Service → Dict String Service → Dict String Service
service_by keys_of [] d = d
service_by keys_of (svc ∷ services) d =
    service_by keys_of services (set_default (keys_of svc) svc d)

unfoldable pub service_by_story_id : List Service → Dict String Service
service_by_story_id services = service_by (λ svc. svc.story_ids) services []

unfoldable pub service_by_context : List Service → Dict String Service
service_by_context services = service_by (λ svc. svc.bounded_context ∷ []) services []

unfoldable member_refs : List DesignContext → String → List String
member_refs [] context = []
member_refs (c ∷ cs) context =
    let rest = member_refs cs context in
    if c.name == context then c.member_programs ++ rest else rest

unfoldable mapping_refs : List ContextDesign → String → List String
mapping_refs [] context = []
mapping_refs (d ∷ ds) context =
    let rest = mapping_refs ds context in
    if d.context == context then keep_if (λ r. not (r == "")) d.cobol_refs ++ rest else rest

unfoldable domain_refs_for_context : Domain → String → List String
domain_refs_for_context domain context =
    member_refs domain.contexts context ++ mapping_refs domain.designs context

-- The service of a story: the one that lists it, or, where no service lists stories, the one of
-- its context.
unfoldable pub service_of : List Service → UserStory → Option Service
service_of services story =
    let by_story_id = service_by_story_id services in
    elim (get story.id by_story_id) [
      | some svc ↦ some svc
      | none ↦
          if is_empty by_story_id && not (story.context == "")
          then get story.context (service_by_context services)
          else none
    ]

pub item_of : List Service → Domain → UserStory → StoryItem
item_of services domain story = elim (service_of services story) [
  | none ↦ record {
    story_id = story.id;
    bounded_context = "";
    service_name = "";
    acceptance_criteria_ids = story.acceptance_criteria;
    cobol_refs = dedupe story.evidence_refs;
    depends_on = story.depends_on;
    status = blocked;
  }
  | some svc ↦ record {
    story_id = story.id;
    bounded_context = svc.bounded_context;
    service_name = svc.name;
    acceptance_criteria_ids = story.acceptance_criteria;
    cobol_refs = dedupe (
        story.evidence_refs
        ++ domain_refs_for_context domain svc.bounded_context
        ++ svc.evidence_refs);
    depends_on = story.depends_on;
    status = pending;
  }
]

pub build_story_codegen_plan : List UserStory → Domain → List Service → Option (List StoryItem)
build_story_codegen_plan stories domain services =
    Option.map (map (item_of services domain)) (ordered_stories stories)
