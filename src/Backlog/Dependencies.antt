-- ===== src/Backlog/Dependencies.antt =====
-- The dependencies of the backlog's stories (src/cobol_modernizer/backlog/dependency.py).
mod Derived
use Prim.Native.String as Text
use Prim.Native.Char.{code}
use cobol_java_migrator_v.Prelude.{
  ◌+◌, String, not, ◌&&◌, Option, none, some, List, [], ◌∷◌, ◌++◌, map, eqb, if◌then◌else◌, ◌==◌,
  nat_eq, string_eq, pair_eq, option_eq, contains, sorted, to_set,
}
use cobol_java_migrator_v.Prelude.Dict.{Dict, get, put, keys}
use cobol_java_migrator_v.Backlog.{BacklogStory}
use cobol_java_migrator_v.Planner.Stories.{SeamCandidate, by_program}

-- ref.split(".")[0]
unfoldable pub before_dot : String → String
before_dot Text.[] = Text.[]
before_dot (Text.◌∷◌ c s) =
    let rest = before_dot s in if eqb (code c) 46 then Text.[] else Text.◌∷◌ c rest

unfoldable pub program_of_refs : List String → List String → Option String
program_of_refs programs [] = none
program_of_refs programs (ref ∷ refs) =
    let rest = program_of_refs programs refs in
    if contains (before_dot ref) programs then some (before_dot ref) else rest

-- {s.id: _program_for_story(s, programs) for s in stories}
pub story_programs :
    List String → List BacklogStory → Dict String (Option String) → Dict String (Option String)
story_programs programs [] d = d
story_programs programs (s ∷ ss) d =
    story_programs programs ss (put s.id (program_of_refs programs s.evidence_refs) d)

-- {p: sid for sid, p in story_program.items() if p}
pub stories_by_program : Dict String (Option String) → Dict String String → Dict String String
stories_by_program [] d = d
stories_by_program ((sid, none) ∷ es) d = stories_by_program es d
stories_by_program ((sid, some p) ∷ es) d =
    stories_by_program es (if p == "" then d else put p sid d)

-- The stories of the other programs that read a resource, for one resource and for all.
pub readers_of : Dict String String → String → String → List SeamCandidate → List String
readers_of by_program program written [] = []
readers_of by_program program written (c ∷ cs) =
    let rest = readers_of by_program program written cs in
    if not (c.program == program) && contains written c.reads
    then elim (get c.program by_program) [
      | none ↦ rest
      | some sid ↦ if sid == "" then rest else sid ∷ rest
    ]
    else rest

pub readers_of_all : Dict String String → String → List SeamCandidate → List String → List String
readers_of_all by_program program candidates [] = []
readers_of_all by_program program candidates (w ∷ ws) =
    readers_of by_program program w candidates ++ readers_of_all by_program program candidates ws

pub with_depends_on : BacklogStory → List String → BacklogStory
with_depends_on s deps = record s { depends_on = deps }

-- The body of the for loop over the stories. A program of a story is one of a candidate.
pub derive_story : Dict String (Option String) → List SeamCandidate → BacklogStory → BacklogStory
derive_story programs candidates s = elim (get s.id programs) [
  | none ↦ s
  | some none ↦ s
  | some (some program) ↦
      if program == "" then s else elim (get program (by_program candidates [])) [
        | none ↦ s
        | some c ↦ with_depends_on s (
            sorted (
              to_set (
                s.depends_on
                ++ readers_of_all (stories_by_program programs []) program candidates c.writes)))
      ]
]

unfoldable pub derive_story_dependencies :
    List BacklogStory → List SeamCandidate → List BacklogStory
derive_story_dependencies stories candidates =
    let programs = story_programs (keys (by_program candidates [])) stories [] in
    map (derive_story programs candidates) stories
