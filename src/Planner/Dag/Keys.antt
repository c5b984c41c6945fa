-- ===== src/Planner/Dag/Keys.antt =====
-- The stories that have a degree.
use cobol_java_migrator_v.Prelude.{
  ℕ, suc, ◌≤◌, String, ◌≡◌, refl, ap, ◌∙◌, subst, inl, inr, true, false, ◌||◌, List, [], ◌∷◌, ◌++◌,
  arith, Bool-cases, ok, Result-cases, ◌==◌, nat_eq, string_eq, pair_eq, option_eq, beq_refl, All,
  contains, count, contains_of_count, count-append,
}
use cobol_java_migrator_v.Prelude.Dict.{Dict, put, keys, contains-keys-put}
use cobol_java_migrator_v.Planner.Stories.{Story}
use cobol_java_migrator_v.Planner.Dag.{
  Degrees, degree, targets, ids_of_stories, blank, add_edge, add_deps, add_stories, degrees_of,
}

-- The keys of the degrees are stories, each once.
unfoldable pub Once : List String → Type 0
Once xs = (m : String) → count m xs ≤ 1

keys-put_old :
    {V : Type 0} (k : String) (v : V) (d : Dict String V)
    → contains k (keys d) ≡ true
    → keys (put k v d) ≡ keys d
unfolding put
keys-put_old k v [] here = absurd (ground arith)
keys-put_old k v ((j, w) ∷ d) here = elim (Bool-cases (j == k)) [
  | inl same ↦ rw (same, put) refl
  | inr other ↦ rw (other, put) (ap (λ l. j ∷ l) (keys-put_old k v d (ground arith)))
]

keys-put_new :
    {V : Type 0} (k : String) (v : V) (d : Dict String V)
    → contains k (keys d) ≡ false
    → keys (put k v d) ≡ keys d ++ k ∷ []
unfolding put
keys-put_new k v [] fresh = refl
keys-put_new k v ((j, w) ∷ d) fresh =
    let other : (j == k) ≡ false = ground arith in
    rw (other, put) (ap (λ l. j ∷ l) (keys-put_new k v d (ground arith)))

pub record IsKeyed (ids : List String) (g : Degrees) : Type 0 where
  pub once : Once (keys g.indeg)
  pub known : (m : String) → 1 ≤ count m (keys g.indeg) → contains m ids ≡ true

put-IsKeyed :
    (ids : List String) (k : String) (n : ℕ) (g : Degrees) (adj : Dict String (List String))
    → contains k ids ≡ true
    → IsKeyed ids g
    → IsKeyed ids (record { indeg = put k n g.indeg; adj = adj })
unfolding Once
put-IsKeyed ids k n g adj here h = elim (Bool-cases (contains k (keys g.indeg))) [
  | inl old ↦
      let same = keys-put_old k n g.indeg old in
      record { once = rw same h.once; known = rw same h.known }
  | inr new ↦
      let more = keys-put_new k n g.indeg new in
      let absent = contains_of_count k (keys g.indeg) in
      record {
        once = λ m.
            let counted = ap (count m) more ∙ count-append m (keys g.indeg) (k ∷ []) in
            let few = h.once m in
            elim (Bool-cases (k == m)) [
              | inl same ↦
                  let at_k = ap (λ x. count x (keys g.indeg)) ((string_eq.beq_iff k m).0 same) in
                  ground arith
              | inr other ↦ ground arith
            ];
        known = λ m there.
            let counted = ap (count m) more ∙ count-append m (keys g.indeg) (k ∷ []) in
            elim (Bool-cases (k == m)) [
              | inl same ↦ subst (λ x. contains x ids ≡ true) ((string_eq.beq_iff k m).0 same) here
              | inr other ↦ h.known m (ground arith)
            ];
      }
]

add_deps-IsKeyed :
    (ids : List String) (id : String) (ds : List String) (g h : Degrees)
    → contains id ids ≡ true
    → IsKeyed ids g
    → add_deps ids id ds g ≡ ok h
    → IsKeyed ids h
unfolding add_deps add_edge
add_deps-IsKeyed ids id [] g h here k built =
    let same : g ≡ h = ground arith in subst (IsKeyed ids) same k
add_deps-IsKeyed ids id (d ∷ ds) g h here k built =
    add_deps-IsKeyed ids id ds (add_edge d id g) h here
      (put-IsKeyed ids id (suc (degree g.indeg id)) g (put d (targets g.adj d ++ id ∷ []) g.adj)
        here k)
      (ground arith)

add_stories-IsKeyed :
    (ids : List String) (ss : List Story) (g h : Degrees)
    → All (λ s. contains s.id ids ≡ true) ss
    → IsKeyed ids g
    → add_stories ids ss g ≡ ok h
    → IsKeyed ids h
unfolding add_stories
add_stories-IsKeyed ids [] g h here k built =
    let same : g ≡ h = ground arith in subst (IsKeyed ids) same k
add_stories-IsKeyed ids (s ∷ ss) g h (here, rest) k built =
    elim (Result-cases (add_deps ids s.id s.depends_on g)) [
      | inl (e, raised) ↦ absurd (ground (arith, raised))
      | inr (l, added) ↦
          add_stories-IsKeyed ids ss l h rest
            (add_deps-IsKeyed ids s.id s.depends_on g l here k added) (ground (arith, added))
    ]

blank-IsKeyed :
    (ids : List String) (ss : List Story) (g : Degrees)
    → All (λ s. contains s.id ids ≡ true) ss
    → IsKeyed ids g
    → IsKeyed ids (blank ss g)
unfolding blank
blank-IsKeyed ids [] g here k = k
blank-IsKeyed ids (s ∷ ss) g (here, rest) k =
    let nothing : List String = [] in
    blank-IsKeyed ids ss (record { indeg = put s.id 0 g.indeg; adj = put s.id nothing g.adj }) rest
      (put-IsKeyed ids s.id 0 g (put s.id nothing g.adj) here k)

stories_known :
    (ids : List String) (ss : List Story)
    → ((m : String) → contains m (ids_of_stories ss) ≡ true → contains m ids ≡ true)
    → All (λ s. contains s.id ids ≡ true) ss
stories_known ids [] sub = tt
stories_known ids (s ∷ ss) sub =
    (sub s.id (ground (arith, beq_refl s.id)), stories_known ids ss (λ m h. sub m (ground arith)))

pub degrees_of-IsKeyed :
    (stories : List Story) (g : Degrees)
    → degrees_of stories ≡ ok g
    → IsKeyed (ids_of_stories stories) g
unfolding degrees_of Once
degrees_of-IsKeyed stories g built =
    let ids = ids_of_stories stories in
    let empty : Degrees = record { indeg = []; adj = [] } in
    let known = stories_known ids stories (λ m h. h) in
    add_stories-IsKeyed ids stories (blank stories empty) g known
      (blank-IsKeyed ids stories empty known
        (record { once = λ m. omega arith; known = λ m h. absurd (omega arith) }))
      built

-- Every story has a degree.
add_deps-keys :
    (ids : List String) (id : String) (ds : List String) (g h : Degrees) (m : String)
    → contains m (keys g.indeg) ≡ true
    → add_deps ids id ds g ≡ ok h
    → contains m (keys h.indeg) ≡ true
unfolding add_deps add_edge
add_deps-keys ids id [] g h m there built =
    let same : g ≡ h = ground arith in
    subst (λ (g : Degrees). contains m (keys g.indeg) ≡ true) same there
add_deps-keys ids id (d ∷ ds) g h m there built =
    add_deps-keys ids id ds (add_edge d id g) h m
      (ground (arith, contains-keys-put m id (suc (degree g.indeg id)) g.indeg)) (ground arith)

add_stories-keys :
    (ids : List String) (ss : List Story) (g h : Degrees) (m : String)
    → contains m (keys g.indeg) ≡ true
    → add_stories ids ss g ≡ ok h
    → contains m (keys h.indeg) ≡ true
unfolding add_stories
add_stories-keys ids [] g h m there built =
    let same : g ≡ h = ground arith in
    subst (λ (g : Degrees). contains m (keys g.indeg) ≡ true) same there
add_stories-keys ids (s ∷ ss) g h m there built =
    elim (Result-cases (add_deps ids s.id s.depends_on g)) [
      | inl (e, raised) ↦ absurd (ground (arith, raised))
      | inr (k, added) ↦
          add_stories-keys ids ss k h m (add_deps-keys ids s.id s.depends_on g k m there added)
            (ground (arith, added))
    ]

blank-keys :
    (ss : List Story) (g : Degrees) (m : String)
    → (contains m (ids_of_stories ss) || contains m (keys g.indeg)) ≡ true
    → contains m (keys (blank ss g).indeg) ≡ true
unfolding blank
blank-keys [] g m there = there
blank-keys (s ∷ ss) g m there =
    let nothing : List String = [] in
    blank-keys ss (record { indeg = put s.id 0 g.indeg; adj = put s.id nothing g.adj }) m
      (ground (arith, contains-keys-put m s.id 0 g.indeg))

pub degrees_of-keys :
    (stories : List Story) (g : Degrees) (m : String)
    → degrees_of stories ≡ ok g
    → contains m (ids_of_stories stories) ≡ true
    → contains m (keys g.indeg) ≡ true
unfolding degrees_of
degrees_of-keys stories g m built there =
    let empty : Degrees = record { indeg = []; adj = [] } in
    add_stories-keys (ids_of_stories stories) stories (blank stories empty) g m
      (blank-keys stories empty m (ground arith)) built
