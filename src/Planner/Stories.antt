-- ===== src/Planner/Stories.antt =====
-- Stories of seam candidates and their dependencies (src/cobol_modernizer/planner/schema.py,
-- dependency.py and tagging.py). Weights are in thousandths; `str` of a number is an argument.
mod Dependencies
use cobol_java_migrator_v.Prelude.{
  ℕ, ◌+◌, String, Bool, not, ◌&&◌, Option, none, some, List, [], ◌∷◌, ◌++◌, map, leb, if◌then◌else◌,
  Result, ok, err, ◌>>=◌, ◌==◌, nat_eq, string_eq, pair_eq, option_eq, contains, sorted_by, sorted,
  to_set,
}
use cobol_java_migrator_v.Prelude.Dict.{Dict, get, put}

pub record Story : Type 0 where
  pub id : String
  pub title : String
  pub seam : String
  pub depends_on : List String
  pub evidence_map : Dict String (List String)
  pub context : Option String
  pub topology : Option String

pub record SeamCandidate : Type 0 where
  pub program : String
  pub weighted : ℕ
  pub reads : List String
  pub writes : List String

-- sorted(..., reverse=True): highest first, equal weights in their order.
unfoldable by_weight : SeamCandidate → SeamCandidate → Bool
by_weight a b = leb b.weighted a.weighted

module _ (str : ℕ → String) (concat : String → String → String) where
  unfoldable number_stories : ℕ → List SeamCandidate → List Story
  number_stories i [] = []
  number_stories i (c ∷ cs) =
      record {
        id = concat "S" (str (i + 1));
        title = concat "Migrate " c.program;
        seam = c.program;
        depends_on = [];
        evidence_map = ("seam", c.program ∷ []) ∷ [];
        context = none;
        topology = none;
      }
      ∷ number_stories (i + 1) cs

  unfoldable stories_from_seam_set : List SeamCandidate → List Story
  stories_from_seam_set candidates = number_stories 0 (sorted_by by_weight candidates)

-- {c["program"]: c for c in seam_candidates} and {s.seam: s for s in stories}: the last of a key.
pub by_program : List SeamCandidate → Dict String SeamCandidate → Dict String SeamCandidate
by_program [] d = d
by_program (c ∷ cs) d = by_program cs (put c.program c d)

pub story_for : List Story → Dict String Story → Dict String Story
story_for [] d = d
story_for (s ∷ ss) d = story_for ss (put s.seam s d)

-- The KeyError of a program without a candidate or without a story.
pub data PlanError : Type 0 where
  key_error : String → PlanError

pub story_id : Dict String Story → String → Result PlanError String
story_id stories program = elim (get program stories) [
  | none ↦ err (key_error program)
  | some s ↦ ok s.id
]

-- The other seams that read a resource, as ids, for one resource and for all of them.
pub reader_ids :
    Dict String Story → String → String → List SeamCandidate → Result PlanError (List String)
reader_ids stories seam resource [] = ok []
reader_ids stories seam resource (c ∷ cs) =
    let rest = reader_ids stories seam resource cs in
    if not (c.program == seam) && contains resource c.reads
    then (story_id stories c.program >>= λ i. rest >>= λ is. ok (i ∷ is))
    else rest

pub dep_ids :
    Dict String Story → String → List SeamCandidate → List String → Result PlanError (List String)
dep_ids stories seam candidates [] = ok []
dep_ids stories seam candidates (resource ∷ rs) =
    reader_ids stories seam resource candidates >>= λ here.
    dep_ids stories seam candidates rs >>= λ rest. ok (here ++ rest)

pub with_deps : Story → List String → Story
with_deps s deps = record {
  id = s.id;
  title = s.title;
  seam = s.seam;
  depends_on = deps;
  evidence_map = s.evidence_map;
  context = s.context;
  topology = s.topology;
}

pub dependencies_of : List Story → List SeamCandidate → Story → Result PlanError Story
dependencies_of stories candidates s = elim (get s.seam (by_program candidates [])) [
  | none ↦ err (key_error s.seam)
  | some c ↦ dep_ids (story_for stories []) s.seam candidates c.writes >>= λ deps.
      ok (with_deps s (sorted (to_set deps)))
]

unfoldable derive_each :
    List Story → List SeamCandidate → List Story → Result PlanError (List Story)
derive_each stories candidates [] = ok []
derive_each stories candidates (s ∷ ss) = dependencies_of stories candidates s >>= λ t.
    derive_each stories candidates ss >>= λ ts. ok (t ∷ ts)

unfoldable derive_dependencies : List Story → List SeamCandidate → Result PlanError (List Story)
derive_dependencies stories candidates = derive_each stories candidates stories

-- A bounded context of the domain design; the deployment of its topology is none where the topology
-- is no dict or has none.
record BoundedContext : Type 0 where
  pub name : Option String
  pub member_programs : List String
  pub deployment : Option String

-- by_program[p] = c for the members of a context, and for all contexts: the last of a program.
unfoldable put_members :
    BoundedContext → List String → Dict String BoundedContext → Dict String BoundedContext
put_members c [] d = d
put_members c (p ∷ ps) d = put_members c ps (put p c d)

unfoldable by_member : List BoundedContext → Dict String BoundedContext → Dict String BoundedContext
unfolding put_members
by_member [] d = d
by_member (c ∷ cs) d = by_member cs (put_members c c.member_programs d)

-- A context found has a member, so it is not an empty dict.
unfoldable tag_story : Dict String BoundedContext → Story → Story
tag_story contexts s = elim (get s.seam contexts) [
  | none ↦ s
  | some c ↦ record s { context = c.name; topology = c.deployment }
]

unfoldable tag_stories_with_contexts : List Story → List BoundedContext → List Story
unfolding tag_story by_member
tag_stories_with_contexts stories contexts = map (tag_story (by_member contexts [])) stories
