-- ===== src/Planner/Dag/Graph.antt =====
-- The degrees and the targets, as counts of the edges of the plan.
use cobol_java_migrator_v.Prelude.{
  ℕ, suc, ◌+◌, ◌≤◌, String, ◌≡◌, refl, ap, subst, inl, inr, true, false, not, ◌&&◌, List, [], ◌∷◌,
  ◌++◌, arith, if◌then◌else◌, Bool-cases, ok, Result-cases, ◌==◌, nat_eq, string_eq, pair_eq,
  option_eq, contains, count, contains-append, count-append,
}
use cobol_java_migrator_v.Prelude.Dict.{get, put, get-put}
use mathlib.Core.List.{append_assoc, append-nil}
use cobol_java_migrator_v.Planner.Stories.{Story}
use cobol_java_migrator_v.Planner.Dag.{
  Degrees, degree, targets, ids_of_stories, blank, add_edge, add_deps, add_stories, degrees_of,
}

abbrev pub Edges : Type 0
Edges = List (String × String)

abbrev pub edges_to : List String → String → Edges
edges_to [] id = []
edges_to (d ∷ ds) id = (d, id) ∷ edges_to ds id

-- An edge from each dependency to its story.
unfoldable pub edges_of : List Story → Edges
edges_of [] = []
edges_of (s ∷ ss) = edges_to s.depends_on s.id ++ edges_of ss

-- The edges from n to m, and those to m from stories that are not done.
pub links : String → String → Edges → ℕ
links n m [] = 0
links n m ((d, i) ∷ es) = let rest = links n m es in if d == n && i == m then suc rest else rest

unfoldable pub pending : List String → String → Edges → ℕ
pending done m [] = 0
pending done m ((d, i) ∷ es) =
    let rest = pending done m es in if i == m && not (contains d done) then suc rest else rest

links-append : (n m : String) (es fs : Edges) → links n m (es ++ fs) ≡ links n m es + links n m fs
unfolding links
links-append n m [] fs = omega arith
links-append n m ((d, i) ∷ es) fs = ground (arith, links-append n m es fs)

pending-append :
    (done : List String) (m : String) (es fs : Edges)
    → pending done m (es ++ fs) ≡ pending done m es + pending done m fs
unfolding pending
pending-append done m [] fs = omega arith
pending-append done m ((d, i) ∷ es) fs = ground (arith, pending-append done m es fs)

-- A story that gets done takes away its own edges.
pub pending-done :
    (done : List String) (n m : String) (es : Edges)
    → contains n done ≡ false
    → pending (done ++ n ∷ []) m es + links n m es ≡ pending done m es
unfolding pending links
pending-done done n m [] fresh = omega arith
pending-done done n m ((d, i) ∷ es) fresh = ground (
  arith,
  pending-done done n m es fresh,
  contains-append d done (n ∷ []),
  string_eq.beq_iff d n,
  string_eq.beq_iff n d,
  ap (λ x. contains x done),
)

-- Edges lead to stories.
pub contains-pending :
    (done : List String) (m : String) (stories : List Story)
    → 1 ≤ pending done m (edges_of stories)
    → contains m (ids_of_stories stories) ≡ true
unfolding edges_of pending
contains-pending done m [] h = absurd (omega arith)
contains-pending done m (s ∷ ss) h =
    let split = pending-append done m (edges_to s.depends_on s.id) (edges_of ss) in
    elim (Bool-cases (s.id == m)) [
      | inl same ↦ ground arith
      | inr other ↦
          let none_here = other_target s.depends_on s.id other in
          let rest = contains-pending done m ss (omega arith) in ground arith
    ]
  where
    other_target :
        (ds : List String) (i : String) → (i == m) ≡ false → pending done m (edges_to ds i) ≡ 0
    other_target [] i h = refl
    other_target (d ∷ ds) i h = ground (arith, other_target ds i h)

-- What the graph counts of a list of edges.
pub record Counts (g : Degrees) (es : Edges) : Type 0 where
  pub to : (m : String) → degree g.indeg m ≡ pending [] m es
  pub from : (n m : String) → count m (targets g.adj n) ≡ links n m es

add_edge-Counts :
    (dep id : String) (g : Degrees) (es : Edges)
    → Counts g es
    → Counts (add_edge dep id g) (es ++ (dep, id) ∷ [])
unfolding add_edge links pending
add_edge-Counts dep id g es h = record {
  to = λ m.
      let more = pending-append [] m es ((dep, id) ∷ []) in
      ground (
        arith,
        h.to m,
        h.to id,
        more,
        get-put id m (suc (degree g.indeg id)) g.indeg,
        string_eq.beq_iff id m,
        ap (degree g.indeg),
      );
  from = λ n m.
      let more = links-append n m es ((dep, id) ∷ []) in
      let longer = count-append m (targets g.adj dep) (id ∷ []) in
      ground (
        arith,
        h.from n m,
        h.from dep m,
        more,
        longer,
        get-put dep n (targets g.adj dep ++ id ∷ []) g.adj,
        string_eq.beq_iff dep n,
        ap (λ x. links x m es),
      );
}

add_deps-Counts :
    (ids : List String) (id : String) (ds : List String) (g h : Degrees) (es : Edges)
    → Counts g es
    → add_deps ids id ds g ≡ ok h
    → Counts h (es ++ edges_to ds id)
unfolding add_deps
add_deps-Counts ids id [] g h es c built =
    let same : g ≡ h = ground arith in subst (λ g. Counts g (es ++ [])) same (rw (append-nil es) c)
add_deps-Counts ids id (d ∷ ds) g h es c built =
    let rest =
      add_deps-Counts ids id ds (add_edge d id g) h (es ++ (d, id) ∷ [])
        (add_edge-Counts d id g es c) (ground arith) in
    subst (Counts h) (append_assoc es ((d, id) ∷ []) (edges_to ds id)) rest

add_stories-Counts :
    (ids : List String) (ss : List Story) (g h : Degrees) (es : Edges)
    → Counts g es
    → add_stories ids ss g ≡ ok h
    → Counts h (es ++ edges_of ss)
unfolding add_stories edges_of
add_stories-Counts ids [] g h es c built =
    let same : g ≡ h = ground arith in subst (λ g. Counts g (es ++ [])) same (rw (append-nil es) c)
add_stories-Counts ids (s ∷ ss) g h es c built =
    elim (Result-cases (add_deps ids s.id s.depends_on g)) [
      | inl (e, raised) ↦ absurd (ground (arith, raised))
      | inr (k, added) ↦
          let step = add_deps-Counts ids s.id s.depends_on g k es c added in
          let rest =
            add_stories-Counts ids ss k h (es ++ edges_to s.depends_on s.id) step
              (ground (arith, added)) in
          subst (Counts h) (append_assoc es (edges_to s.depends_on s.id) (edges_of ss)) rest
    ]

blank-Counts : (ss : List Story) (g : Degrees) → Counts g [] → Counts (blank ss g) []
unfolding blank pending links
blank-Counts [] g c = c
blank-Counts (s ∷ ss) g c =
    let nothing : List String = [] in
    blank-Counts ss (record { indeg = put s.id 0 g.indeg; adj = put s.id [] g.adj })
      (record {
        to = λ m. ground (arith, c.to m, get-put s.id m 0 g.indeg);
        from = λ n m. ground (arith, c.from n m, get-put s.id n nothing g.adj);
      })

pub degrees_of-Counts :
    (stories : List Story) (g : Degrees) → degrees_of stories ≡ ok g → Counts g (edges_of stories)
unfolding degrees_of get pending links
degrees_of-Counts stories g built =
    let empty : Degrees = record { indeg = []; adj = [] } in
    add_stories-Counts (ids_of_stories stories) stories (blank stories empty) g []
      (blank-Counts stories empty (record { to = λ m. refl; from = λ n m. refl })) built
