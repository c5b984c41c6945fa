-- ===== src/StoryRunner.antt =====
-- The story runner (src/cobol_modernizer/codegen/story_runner.py and story_plan.py): the plan's
-- work-list, its dependency waves, and the loop that repeats a plan until it is done.
mod Waves
mod Order
mod Acyclic
pub mod Plan
pub mod Paths
pub mod Environment
pub mod Lifecycle
pub mod UntilDone
pub mod BuildGate
use cobol_java_migrator_v.Prelude.{
  ℕ, zero, suc, String, not, Option, none, some, List, [], ◌∷◌, ◌++◌, map, nat_eq, string_eq,
  pair_eq, option_eq, length, is_empty, keep_if, contains, if◌then◌else◌,
}
use mathlib.Core.Option
use cobol_java_migrator_v.Codegen.StoryPlan.{StoryItem, all_emitted}

abbrev pub ids_of : List StoryItem → List String
ids_of = map (λ it. it.story_id)

-- The items without unmet dependencies, or all where there are none.
pub next_wave : List String → List String → List StoryItem → List StoryItem
next_wave known emitted remaining =
    let wave = keep_if (λ it. all_emitted known emitted it.depends_on) remaining in
    if is_empty wave then remaining else wave

pub without : List String → List StoryItem → List StoryItem
without ids = keep_if (λ it. not (contains it.story_id ids))

-- The while loop, on fuel: none where it runs out.
pub waves_from : ℕ → List String → List String → List StoryItem → Option (List (List StoryItem))
waves_from zero known emitted remaining = if is_empty remaining then some [] else none
waves_from (suc fuel) known emitted remaining =
    let wave = next_wave known emitted remaining in
    let rest = waves_from fuel known (emitted ++ ids_of wave) (without (ids_of wave) remaining) in
    if is_empty remaining then some [] else Option.map (λ ws. wave ∷ ws) rest

-- A wave takes an item at least, so there is a round to an item.
pub dependency_waves : List StoryItem → Option (List (List StoryItem))
dependency_waves items = waves_from (length items) (ids_of items) [] items
