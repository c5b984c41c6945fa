-- ===== src/Planner/Stories/Dependencies/Examples.antt =====
-- Concrete inputs for the theorems of Dependencies.
use cobol_java_migrator_v.Planner.Stories.{
  Story, SeamCandidate, by_program, story_for, story_id, reader_ids, dep_ids, with_deps,
  dependencies_of,
}
use cobol_java_migrator_v.Planner.Stories.Dependencies.{is_reader, dependencies_of-readers}
use cobol_java_migrator_v.Prelude.{
  String, ◌≡◌, refl, none, some, List, [], ◌∷◌, ok, any, contains, insert_by, sorted_by, ◌≤◌, count,
  IsSorted, text_leb,
}
use cobol_java_migrator_v.Prelude.Dict.{get, put}
use cobol_java_migrator_v.Prelude.{string_eq}

abbrev candidate : String → List String → List String → SeamCandidate
candidate p reads writes = record { program = p; weighted = 1; reads = reads; writes = writes }

abbrev story : String → String → Story
story id seam = record {
  id = id;
  title = seam;
  seam = seam;
  depends_on = [];
  evidence_map = ("seam", seam ∷ []) ∷ [];
  context = none;
  topology = none;
}

abbrev candidates : List SeamCandidate
candidates = candidate "READER" ("ACCT" ∷ []) [] ∷ candidate "WRITER" [] ("ACCT" ∷ []) ∷ []

abbrev planned : List Story
planned = story "S1" "READER" ∷ story "S2" "WRITER" ∷ []

abbrev waiting : Story
waiting = with_deps (story "S2" "WRITER") ("S1" ∷ [])

found : get "WRITER" (by_program candidates []) ≡ some (candidate "WRITER" [] ("ACCT" ∷ []))
unfolding get put by_program
found = refl

derived : dependencies_of planned candidates (story "S2" "WRITER") ≡ ok waiting
unfolding dependencies_of dep_ids reader_ids story_id story_for by_program with_deps get put
    sorted_by insert_by
derived = refl

dependencies_of-readers_example :
    (contains "S1" waiting.depends_on
      ≡ any (is_reader (story_for planned []) "WRITER" ("ACCT" ∷ []) "S1") candidates)
    × (count "S1" waiting.depends_on ≤ 1)
    × IsSorted text_leb waiting.depends_on
dependencies_of-readers_example =
    dependencies_of-readers planned candidates (story "S2" "WRITER") waiting
      (candidate "WRITER" [] ("ACCT" ∷ [])) "S1" found derived
