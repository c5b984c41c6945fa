-- ===== src/Backlog/Dependencies/Derived.antt =====
-- What the derivation adds to a story.
mod Examples
use cobol_java_migrator_v.Prelude.{
  ◌+◌, ◌-◌, String, ◌≡◌, refl, ◌∙◌, subst, inl, inr, true, false, not, ◌&&◌, Option, none, some,
  List, [], ◌∷◌, ◌++◌, arith, if◌then◌else◌, Bool-cases, Option-cases, ◌==◌, nat_eq, string_eq,
  pair_eq, option_eq, All, contains, IsUnique, contains-append, text_leb, to_set,
  contains-sorted_by, contains-to_set,
}
use cobol_java_migrator_v.Prelude.Dict.{Dict, get, put, keys, get-put, put-IsUnique, get-entries}
use cobol_java_migrator_v.Backlog.{BacklogStory}
use cobol_java_migrator_v.Planner.Stories.{SeamCandidate, by_program}
use cobol_java_migrator_v.Backlog.Dependencies.{
  program_of_refs, story_programs, stories_by_program, readers_of, readers_of_all, with_depends_on,
  derive_story,
}

-- The program of a story that is found for a program is that program.
abbrev IsInverse : Dict String (Option String) → Dict String String → Type 0
IsInverse programs stories =
    (p sid : String) → get p stories ≡ some sid → get sid programs ≡ some (some p)

readers_of-other :
    (programs : Dict String (Option String)) (stories : Dict String String) (program id w : String)
    (cs : List SeamCandidate)
    → IsInverse programs stories
    → get id programs ≡ some (some program)
    → contains id (readers_of stories program w cs) ≡ false
unfolding readers_of
readers_of-other programs stories program id w [] inv own = refl
readers_of-other programs stories program id w (c ∷ cs) inv own =
    let rest = readers_of-other programs stories program id w cs inv own in
    elim (Bool-cases (not (c.program == program) && contains w c.reads)) [
      | inr skips ↦ ground arith
      | inl reads ↦ elim (Option-cases (get c.program stories)) [
        | inl missing ↦ ground arith
        | inr (sid, found) ↦ elim (Bool-cases (sid == id)) [
          | inr other ↦ ground arith
          | inl same ↦
              let back = inv c.program sid found in
              let at_id =
                subst (λ x. get x programs ≡ some (some c.program))
                  ((string_eq.beq_iff sid id).0 same) back in
              let program_same : c.program ≡ program = ground arith in
              absurd (ground (arith, string_eq.beq_iff c.program program))
        ]
      ]
    ]

readers_of_all-other :
    (programs : Dict String (Option String)) (stories : Dict String String) (program id : String)
    (cs : List SeamCandidate) (ws : List String)
    → IsInverse programs stories
    → get id programs ≡ some (some program)
    → contains id (readers_of_all stories program cs ws) ≡ false
unfolding readers_of_all
readers_of_all-other programs stories program id cs [] inv own = refl
readers_of_all-other programs stories program id cs (w ∷ ws) inv own = ground (
  arith,
  contains-append id (readers_of stories program w cs) (readers_of_all stories program cs ws),
  readers_of-other programs stories program id w cs inv own,
  readers_of_all-other programs stories program id cs ws inv own,
)

empty-IsInverse : (programs : Dict String (Option String)) → IsInverse programs []
unfolding get
empty-IsInverse programs p sid found = ground arith

story_programs-IsUnique :
    (programs : List String) (ss : List BacklogStory) (d : Dict String (Option String))
    → IsUnique (keys d)
    → IsUnique (keys (story_programs programs ss d))
unfolding story_programs
story_programs-IsUnique programs [] d u = u
story_programs-IsUnique programs (s ∷ ss) d u =
    story_programs-IsUnique programs ss (put s.id (program_of_refs programs s.evidence_refs) d)
      (put-IsUnique s.id (program_of_refs programs s.evidence_refs) d u)

stories_by_program-IsInverse :
    (programs es : Dict String (Option String)) (d : Dict String String)
    → All (λ e. get e.0 programs ≡ some e.1) es
    → IsInverse programs d
    → IsInverse programs (stories_by_program es d)
unfolding stories_by_program
stories_by_program-IsInverse programs [] d h inv = inv
stories_by_program-IsInverse programs ((sid, none) ∷ es) d (here, h) inv =
    stories_by_program-IsInverse programs es d h inv
stories_by_program-IsInverse programs ((sid, some p) ∷ es) d (here, h) inv =
    stories_by_program-IsInverse programs es (if p == "" then d else put p sid d) h
      (elim (Bool-cases (p == "")) [
        | inl nameless ↦ rw nameless inv
        | inr named ↦ rw named (put_inverse here)
      ])
  where
    put_inverse : get sid programs ≡ some (some p) → IsInverse programs (put p sid d)
    put_inverse here q s found = elim (Bool-cases (p == q)) [
      | inl same ↦
          let at_q = (string_eq.beq_iff p q).0 same in
          let stored : sid ≡ s = ground (arith, get-put p q sid d) in
          subst (λ x. get s programs ≡ some (some x)) at_q
            (subst (λ x. get x programs ≡ some (some p)) stored here)
      | inr other ↦ inv q s (ground (arith, get-put p q sid d))
    ]

-- The derivation gives no story a dependency on itself: a story that is not among its own
-- dependencies is not afterwards, and the dependencies it had are kept.
pub derive_story_dependencies_self :
    (candidates : List SeamCandidate) (stories : List BacklogStory) (s : BacklogStory)
    → let programs = story_programs (keys (by_program candidates [])) stories [] in
      let t = derive_story programs candidates s in
      (contains s.id t.depends_on ≡ contains s.id s.depends_on)
      × ((d : String) → contains d s.depends_on ≡ true → contains d t.depends_on ≡ true)
unfolding derive_story with_depends_on
derive_story_dependencies_self candidates stories s =
    let programs = story_programs (keys (by_program candidates [])) stories [] in
    elim (Option-cases (get s.id programs)) [
      | inl missing ↦ rw (missing, derive_story) (refl, λ d h. h)
      | inr (none, unmapped) ↦ rw (unmapped, derive_story) (refl, λ d h. h)
      | inr (some program, mapped) ↦ elim (Bool-cases (program == "")) [
        | inl nameless ↦ rw (mapped, nameless, derive_story) (refl, λ d h. h)
        | inr named ↦ elim (Option-cases (get program (by_program candidates []))) [
          | inl no_candidate ↦ rw (mapped, named, no_candidate, derive_story) (refl, λ d h. h)
          | inr (c, found) ↦
              let unique =
                story_programs-IsUnique (keys (by_program candidates [])) stories [] tt in
              let inverse =
                stories_by_program-IsInverse programs programs [] (get-entries programs unique)
                  (empty-IsInverse programs) in
              let others =
                readers_of_all (stories_by_program programs []) program candidates c.writes in
              let added =
                readers_of_all-other programs (stories_by_program programs []) program s.id
                  candidates c.writes inverse mapped in
              let same = λ (d : String).
                contains-sorted_by text_leb d (to_set (s.depends_on ++ others))
                ∙ contains-to_set d (s.depends_on ++ others)
                ∙ contains-append d s.depends_on others in
              rw (mapped, named, found, derive_story)
                (ground (arith, same s.id, added), λ d h. ground (arith, same d))
        ]
      ]
    ]
