-- ===== src/Planner/Dag.antt =====
-- The story graph (src/cobol_modernizer/planner/dag.py): Kahn's algorithm for the order of the
-- stories and for the delivery waves. A degree is counted down from the number of its edges, so it
-- is never below zero, and its last step is from one.
pub mod Graph
mod Keys
pub mod Order
pub mod Correct
use cobol_java_migrator_v.Prelude.{
  ℕ, zero, suc, ◌+◌, ◌-◌, String, Bool, not, Option, none, some, List, [], ◌∷◌, ◌++◌, map, ltb, eqb,
  if◌then◌else◌, or_else, Result, ok, err, ◌>>=◌, ◌>>◌, is_err, nat_eq, string_eq, pair_eq,
  option_eq, length, keep_if, contains, sorted,
}
use mathlib.Core.Option
use cobol_java_migrator_v.Prelude.Dict.{Dict, get, put, keys}
use cobol_java_migrator_v.Planner.Stories.{Story}

pub data CycleError : Type 0 where
  unknown_story : String → String → CycleError
  has_cycle : List String → CycleError

pub record Degrees : Type 0 where
  pub indeg : Dict String ℕ
  pub adj : Dict String (List String)

abbrev pub degree : Dict String ℕ → String → ℕ
degree indeg m = or_else (get m indeg) 0

abbrev pub targets : Dict String (List String) → String → List String
targets adj n = or_else (get n adj) []

abbrev pub ids_of_stories : List Story → List String
ids_of_stories = map (λ s. s.id)

-- {s.id: 0 for s in stories} and {s.id: [] for s in stories}
unfoldable pub blank : List Story → Degrees → Degrees
blank [] g = g
blank (s ∷ ss) g = blank ss (record { indeg = put s.id 0 g.indeg; adj = put s.id [] g.adj })

unfoldable pub add_edge : String → String → Degrees → Degrees
add_edge dep id g = record {
  indeg = put id (suc (degree g.indeg id)) g.indeg;
  adj = put dep (targets g.adj dep ++ id ∷ []) g.adj;
}

unfoldable pub add_deps : List String → String → List String → Degrees → Result CycleError Degrees
add_deps ids id [] g = ok g
add_deps ids id (dep ∷ deps) g =
    let rest = add_deps ids id deps (add_edge dep id g) in
    if contains dep ids then rest else err (unknown_story id dep)

unfoldable pub add_stories : List String → List Story → Degrees → Result CycleError Degrees
add_stories ids [] g = ok g
add_stories ids (s ∷ ss) g = add_deps ids s.id s.depends_on g >>= λ h. add_stories ids ss h

unfoldable pub degrees_of : List Story → Result CycleError Degrees
degrees_of stories =
    add_stories (ids_of_stories stories) stories (blank stories (record { indeg = []; adj = [] }))

-- The for loop over the targets of a story that is done: the degrees, and what is free now.
unfoldable pub release : List String → Dict String ℕ → Dict String ℕ × List String
release [] indeg = (indeg, [])
release (m ∷ ms) indeg =
    let rest = release ms (put m (degree indeg m - 1) indeg) in
    (rest.0, if eqb (degree indeg m) 1 then m ∷ rest.1 else rest.1)

-- sorted(i for i, d in indeg.items() if d == 0)
unfoldable pub free : Dict String ℕ → List String
free indeg = sorted (keep_if (λ i. eqb (degree indeg i) 0) (keys indeg))

-- The while loop over the queue, on fuel: none where it runs out.
unfoldable pub topo_loop :
    Dict String (List String) → ℕ → List String → Dict String ℕ → List String → Option (List String)
topo_loop adj fuel [] indeg order = some order
topo_loop adj zero (n ∷ queue) indeg order = none
topo_loop adj (suc fuel) (n ∷ queue) indeg order =
    let next = release (sorted (targets adj n)) indeg in
    topo_loop adj fuel (queue ++ next.1) next.0 (order ++ n ∷ [])

unfoldable pub check_order : List Story → Degrees → List String → Result CycleError (List String)
check_order stories g order =
    if eqb (length order) (length stories)
    then ok order
    else err (has_cycle (sorted (keep_if (λ i. not (contains i order)) (keys g.indeg))))

-- A story leaves the queue once, so there is a round to a story.
unfoldable pub topo_order : List Story → Option (Result CycleError (List String))
topo_order stories = elim (degrees_of stories) [
  | err e ↦ some (err e)
  | ok g ↦
      Option.map (check_order stories g)
        (topo_loop g.adj (length stories) (free g.indeg) g.indeg [])
]

unfoldable is_acyclic : List Story → Option Bool
is_acyclic stories = Option.map (λ r. not (is_err r)) (topo_order stories)

-- One wave: every target of its stories is counted down.
unfoldable pub release_all :
    Dict String (List String) → List String → Dict String ℕ → Dict String ℕ × List String
release_all adj [] indeg = (indeg, [])
release_all adj (n ∷ ns) indeg =
    let here = release (targets adj n) indeg in
    let rest = release_all adj ns here.0 in (rest.0, here.1 ++ rest.1)

unfoldable pub wave_loop :
    Dict String (List String)
    → ℕ
    → List String
    → Dict String ℕ
    → List (List String)
    → Option (List (List String) × Dict String ℕ)
wave_loop adj fuel [] indeg waves = some (waves, indeg)
wave_loop adj zero (n ∷ ns) indeg waves = none
wave_loop adj (suc fuel) (n ∷ ns) indeg waves =
    let next = release_all adj (n ∷ ns) indeg in
    wave_loop adj fuel (sorted next.1) next.0 (waves ++ (n ∷ ns) ∷ [])

unfoldable pub seen : List (List String) → ℕ
seen [] = 0
seen (w ∷ ws) = length w + seen ws

unfoldable pub check_waves :
    List Story → List (List String) → Dict String ℕ → Result CycleError (List (List String))
check_waves stories waves indeg =
    if eqb (seen waves) (length stories)
    then ok waves
    else err (has_cycle (sorted (keep_if (λ i. ltb 0 (degree indeg i)) (keys indeg))))

unfoldable pub delivery_waves : List Story → Option (Result CycleError (List (List String)))
delivery_waves stories = elim (degrees_of stories) [
  | err e ↦ some (err e)
  | ok g ↦
      Option.map (λ ended. check_waves stories ended.0 ended.1)
        (wave_loop g.adj (length stories) (free g.indeg) g.indeg [])
]
