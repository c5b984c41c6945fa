-- ===== src/Planner/Stories/Dependencies.antt =====
-- Whom a story waits for.
mod Examples
use cobol_java_migrator_v.Prelude.{
  String, ◌≡◌, refl, sym, ap, ◌∙◌, subst, inl, inr, Bool, false, not, ◌&&◌, ◌||◌, none, some, List,
  [], ◌∷◌, ◌++◌, arith, Bool-cases, Option-cases, ok, Result-cases, ◌==◌, nat_eq, string_eq,
  pair_eq, option_eq, any, contains, text_leb, sorted, to_set, contains-sorted_by, contains-to_set,
  ◌≤◌, count, IsSorted, sorted_by-IsSorted, text_leb_total, count-sorted_by, count-to_set,
}
use cobol_java_migrator_v.Prelude.Dict.{Dict, get}
use cobol_java_migrator_v.Planner.Stories.{
  Story, SeamCandidate, by_program, story_for, story_id, reader_ids, dep_ids, with_deps,
  dependencies_of,
}

-- The candidate reads a resource of the list, is not of the seam, and its story has the id.
pub is_reader : Dict String Story → String → List String → String → SeamCandidate → Bool
is_reader stories seam resources i c =
    not (c.program == seam)
    && any (λ r. contains r c.reads) resources
    && elim (get c.program stories) [ none ↦ false | some s ↦ s.id == i ]

contains-append :
    (a : String) (xs ys : List String) → contains a (xs ++ ys) ≡ (contains a xs || contains a ys)
contains-append a [] ys = refl
contains-append a (x ∷ xs) ys = ground (arith, contains-append a xs ys)

contains-reader_ids :
    (stories : Dict String Story) (seam resource i : String) (cs : List SeamCandidate)
    (ids : List String)
    → reader_ids stories seam resource cs ≡ ok ids
    → contains i ids ≡ any (is_reader stories seam (resource ∷ []) i) cs
unfolding reader_ids is_reader story_id
contains-reader_ids stories seam resource i [] ids h = ground arith
contains-reader_ids stories seam resource i (c ∷ cs) ids h =
    elim (Bool-cases (not (c.program == seam) && contains resource c.reads)) [
      | inl reads ↦ elim (Option-cases (get c.program stories)) [
        | inl missing ↦ absurd (ground (arith, reads, missing))
        | inr (t, found) ↦ elim (Result-cases (reader_ids stories seam resource cs)) [
          | inl (e, fails) ↦ absurd (ground (arith, reads, found, fails))
          | inr (rest, done) ↦
              let same : t.id ∷ rest ≡ ids = ground (arith, reads, found, done, h) in
              subst (λ l. contains i l ≡ any (is_reader stories seam (resource ∷ []) i) (c ∷ cs))
                same
                (ground
                  (arith, contains-reader_ids stories seam resource i cs rest done, reads, found))
        ]
      ]
      | inr other ↦
          let rest : reader_ids stories seam resource cs ≡ ok ids = ground (arith, other, h) in
          ground (arith, contains-reader_ids stories seam resource i cs ids rest, other)
    ]

reader_cons :
    (stories : Dict String Story) (seam resource i : String) (rs : List String)
    (cs : List SeamCandidate)
    → any (is_reader stories seam (resource ∷ rs) i) cs
      ≡ (any (is_reader stories seam (resource ∷ []) i) cs || any (is_reader stories seam rs i) cs)
unfolding is_reader
reader_cons stories seam resource i rs [] = refl
reader_cons stories seam resource i rs (c ∷ cs) =
    ground (arith, reader_cons stories seam resource i rs cs)

reader_none :
    (stories : Dict String Story) (seam i : String) (cs : List SeamCandidate)
    → any (is_reader stories seam [] i) cs ≡ false
unfolding is_reader
reader_none stories seam i [] = refl
reader_none stories seam i (c ∷ cs) = ground (arith, reader_none stories seam i cs)

contains-dep_ids :
    (stories : Dict String Story) (seam i : String) (cs : List SeamCandidate) (rs ids : List String)
    → dep_ids stories seam cs rs ≡ ok ids
    → contains i ids ≡ any (is_reader stories seam rs i) cs
unfolding dep_ids
contains-dep_ids stories seam i cs [] ids h =
    let same : [] ≡ ids = ground (arith, h) in
    subst (λ l. contains i l ≡ any (is_reader stories seam [] i) cs) same
      (sym (reader_none stories seam i cs))
contains-dep_ids stories seam i cs (resource ∷ rs) ids h =
    elim (Result-cases (reader_ids stories seam resource cs)) [
      | inl (e, fails) ↦ absurd (ground (arith, fails))
      | inr (here, found) ↦ elim (Result-cases (dep_ids stories seam cs rs)) [
        | inl (e, fails) ↦ absurd (ground (arith, fails, found))
        | inr (rest, done) ↦
            let same : here ++ rest ≡ ids = ground (arith, found, done, h) in
            subst (λ l. contains i l ≡ any (is_reader stories seam (resource ∷ rs) i) cs) same
              (contains-append i here rest
                ∙ ap (λ b. b || contains i rest)
                    (contains-reader_ids stories seam resource i cs here found)
                ∙ ap (λ b. any (is_reader stories seam (resource ∷ []) i) cs || b)
                    (contains-dep_ids stories seam i cs rs rest done)
                ∙ sym (reader_cons stories seam resource i rs cs))
      ]
    ]

-- Where the dependencies of a story of a known seam are derived, its ids are exactly those of the
-- stories of other seams that read one of the resources it writes, sorted and each once.
pub dependencies_of-readers :
    (stories : List Story) (cs : List SeamCandidate) (s t : Story) (c : SeamCandidate) (i : String)
    → get s.seam (by_program cs []) ≡ some c
    → dependencies_of stories cs s ≡ ok t
    → (contains i t.depends_on ≡ any (is_reader (story_for stories []) s.seam c.writes i) cs)
      × (count i t.depends_on ≤ 1)
      × IsSorted text_leb t.depends_on
unfolding dependencies_of with_deps
dependencies_of-readers stories cs s t c i found h =
    elim (Result-cases (dep_ids (story_for stories []) s.seam cs c.writes)) [
      | inl (e, fails) ↦ absurd (ground (arith, found, fails))
      | inr (ids, done) ↦
          let same : sorted (to_set ids) ≡ t.depends_on = ground (arith, found, done, h) in
          let readers = is_reader (story_for stories []) s.seam c.writes i in
          subst (λ l. (contains i l ≡ any readers cs) × (count i l ≤ 1) × IsSorted text_leb l) same
            (
              contains-sorted_by text_leb i (to_set ids)
                  ∙ contains-to_set i ids
                  ∙ contains-dep_ids (story_for stories []) s.seam i cs c.writes ids done,
              ground (arith, count-sorted_by text_leb i (to_set ids), count-to_set i ids),
              sorted_by-IsSorted text_leb text_leb_total (to_set ids),
            )
    ]
