-- ===== src/Planner/Dag/Correct.antt =====
-- The order of the stories: it is found, it is right, and it exists where the graph is acyclic.
mod Examples
use cobol_java_migrator_v.Prelude.{
  ℕ, zero, suc, ◌-◌, ◌≤◌, ◌<◌, String, ◌≡◌, refl, ap, ◌∙◌, subst, inl, inr, Bool, true, false, not,
  ◌&&◌, Option, some, List, [], ◌∷◌, ◌++◌, arith, leb, eqb, if◌then◌else◌, Bool-cases, Result, ok,
  err, Result-cases, ◌==◌, nat_eq, string_eq, pair_eq, option_eq, beq_refl, length, keep_if, All,
  length-keep_if-le, contains, count, IsUnique, contains_of_count, count-sorted_by, text_leb,
}
use cobol_java_migrator_v.Prelude.Dict.{Dict, keys}
use mathlib.Core.Option
use cobol_java_migrator_v.Planner.Stories.{Story}
use cobol_java_migrator_v.Planner.Dag.{
  CycleError, Degrees, degree, ids_of_stories, degrees_of, free, blank, add_edge, add_deps,
  add_stories, topo_loop, check_order, topo_order,
}
use cobol_java_migrator_v.Planner.Dag.Graph.{
  Edges, edges_of, edges_to, pending, contains-pending, degrees_of-Counts,
}
use cobol_java_migrator_v.Planner.Dag.Keys.{Once, degrees_of-IsKeyed, degrees_of-keys}
use cobol_java_migrator_v.Planner.Dag.Order.{DepsFirst, Inv, topo_loop_ends, left}

count-keep_if :
    (m : String) (p : String → Bool) (xs : List String)
    → count m (keep_if p xs) ≡ (if p m then count m xs else 0)
count-keep_if m p [] = ground arith
count-keep_if m p (x ∷ xs) = elim (Bool-cases (x == m)) [
  | inl same ↦
      let at_x = ap p ((string_eq.beq_iff x m).0 same) in ground (arith, count-keep_if m p xs)
  | inr other ↦ ground (arith, count-keep_if m p xs)
]

module _ (stories : List Story) (g : Degrees) (built : degrees_of stories ≡ ok g) where
  abbrev ids : List String
  ids = ids_of_stories stories

  abbrev edges : Edges
  edges = edges_of stories

  initial-Inv : Inv edges ids (free g.indeg) g.indeg []
  unfolding free DepsFirst Once
  initial-Inv =
      let counts = degrees_of-Counts stories g built in
      let keyed = degrees_of-IsKeyed stories g built in
      let is_free = λ (i : String). eqb (degree g.indeg i) 0 in
      let counted = λ (m : String).
        count-sorted_by text_leb m (keep_if is_free (keys g.indeg))
        ∙ count-keep_if m is_free (keys g.indeg) in
      record {
        degrees = counts.to;
        queued = λ m q. ground (arith, counted m, counts.to m);
        once = λ m. ground (arith, counted m, keyed.once m);
        placed = λ m p. absurd (omega arith);
        first = tt;
        known = λ m q. keyed.known m (ground (arith, counted m));
        listed = λ m p. absurd (omega arith);
        complete = λ m here none_left.
            let there = degrees_of-keys stories g m built here in
            let present = contains_of_count m (keys g.indeg) in
            ground (arith, counted m, counts.to m);
      }

  left_empty : (xs : List String) → left edges [] xs ≤ length xs
  unfolding left
  left_empty xs = length-keep_if-le (λ i. not (contains i [])) xs

  length-ids : (ss : List Story) → length (ids_of_stories ss) ≡ length ss
  length-ids [] = refl
  length-ids (s ∷ ss) = ap suc (length-ids ss)

  pub loop_ends :
      (order : List String) × (last : Dict String ℕ) × (topo_loop g.adj
          (length stories)
          (free g.indeg)
          g.indeg
          []
        ≡ some order)
      × Inv edges ids [] last order
  loop_ends =
      let counts = degrees_of-Counts stories g built in
      topo_loop_ends edges ids g.adj (length stories) (free g.indeg) g.indeg [] counts.from
        (λ done m h. contains-pending done m stories h) initial-Inv
        (omega (arith, left_empty ids, length-ids stories))

-- `topo_order` ends: it returns an order or raises CycleError, whatever the stories are.
topo_order_ends :
    (stories : List Story) → (r : Result CycleError (List String)) × (topo_order stories ≡ some r)
unfolding topo_order
topo_order_ends stories = elim (Result-cases (degrees_of stories)) [
  | inl (e, raised) ↦ (err e, ground (arith, raised))
  | inr (g, built) ↦
      let (order, last, ends, inv) = loop_ends stories g built in
      (check_order stories g order, rw (built, topo_order) (ground (arith, ends)))
]

-- An order that is returned has as many entries as there are stories, each of them the id of a
-- story and each once, and no entry has a dependency that does not stand before it.
pub topo_order_sound :
    (stories : List Story) (order : List String)
    → topo_order stories ≡ some (ok order)
    → DepsFirst (edges_of stories) [] order
      × (length order ≡ length stories)
      × ((m : String) → count m order ≤ 1)
      × ((m : String) → contains m order ≡ true → contains m (ids_of_stories stories) ≡ true)
unfolding topo_order check_order
topo_order_sound stories order h = elim (Result-cases (degrees_of stories)) [
  | inl (e, raised) ↦ absurd (ground (arith, raised))
  | inr (g, built) ↦
      let (found, last, ends, inv) = loop_ends stories g built in
      let checked : check_order stories g found ≡ ok order = ground (arith, built, ends) in
      let same : found ≡ order = ground arith in
      let full : length found ≡ length stories = ground arith in
      subst
        (λ l.
          DepsFirst (edges_of stories) [] l
          × (length l ≡ length stories)
          × ((m : String) → count m l ≤ 1)
          × ((m : String) → contains m l ≡ true → contains m (ids_of_stories stories) ≡ true))
        same
        (
          inv.first,
          full,
          λ m. omega (arith, inv.once m),
          λ m there. inv.listed m (ground (arith, contains_of_count m found)),
        )
]

-- A list without repetitions is no longer than one that has its elements.
length-le_of_once :
    (xs ys : List String)
    → ((m : String) → count m xs ≤ 1)
    → ((m : String) → contains m xs ≡ true → contains m ys ≡ true)
    → length xs ≤ length ys
length-le_of_once [] ys once sub = omega arith
length-le_of_once (x ∷ xs) ys once sub =
    let others = keep_if (λ y. not (y == x)) ys in
    let fewer = shorter x ys (sub x (ground (arith, beq_refl x))) in
    let rest =
      length-le_of_once xs others (λ m. ground (arith, once m))
        (λ m there. kept m ys (sub m (ground arith)) (distinct m there)) in
    omega arith
  where
    shorter :
        (x : String) (ys : List String)
        → contains x ys ≡ true
        → length (keep_if (λ y. not (y == x)) ys) < length ys
    shorter x [] here = absurd (ground arith)
    shorter x (y ∷ ys) here = ground (arith, shorter x ys, length-keep_if-le (λ y. not (y == x)) ys)

    kept :
        (m : String) (ys : List String)
        → contains m ys ≡ true
        → (m == x) ≡ false
        → contains m (keep_if (λ y. not (y == x)) ys) ≡ true
    kept m [] here other = absurd (ground arith)
    kept m (y ∷ ys) here other = ground (arith, kept m ys, string_eq.beq_iff y m, ap (λ z. z == x))

    distinct : (m : String) → contains m xs ≡ true → (m == x) ≡ false
    distinct m there = elim (Bool-cases (m == x)) [
      | inl same ↦
          let at_x = subst (λ z. contains z xs ≡ true) ((string_eq.beq_iff m x).0 same) there in
          let twice = once x in absurd (ground (arith, beq_refl x, contains_of_count x xs))
      | inr other ↦ other
    ]

count-IsUnique : (xs : List String) → IsUnique xs → (m : String) → count m xs ≤ 1
count-IsUnique [] u m = omega arith
count-IsUnique (x ∷ xs) (fresh, u) m =
    let absent = contains_of_count x xs in
    elim (Bool-cases (x == m)) [
      | inl same ↦ let at_x = ap (λ z. count z xs) ((string_eq.beq_iff x m).0 same) in ground arith
      | inr other ↦ ground (arith, count-IsUnique xs u m)
    ]

-- An acyclic graph: `rank` falls along every edge, from a story to its dependencies, which are
-- stories.
module _ (rank : String → ℕ) where
  abbrev pub Descends : List String → Edges → Type 0
  Descends ids es = All (λ e. (rank e.0 < rank e.1) × (contains e.0 ids ≡ true)) es

  waiting_for :
      (ids done : List String) (m : String) (es : Edges)
      → Descends ids es
      → 1 ≤ pending done m es
      → (d : String) × (contains d ids ≡ true) × (contains d done ≡ false) × (rank d < rank m)
  unfolding pending
  waiting_for ids done m [] low h = absurd (omega arith)
  waiting_for ids done m ((d, i) ∷ es) ((l, here), low) h =
      elim (Bool-cases (i == m && not (contains d done))) [
        | inl waits ↦ (
          d,
          here,
          ground arith,
          subst (λ z. rank d < rank z) ((string_eq.beq_iff i m).0 (ground arith)) l,
        )
        | inr passes ↦ waiting_for ids done m es low (ground arith)
      ]

  all_placed :
      (es : Edges) (ids : List String) (last : Dict String ℕ) (order : List String)
      → Inv es ids [] last order
      → Descends ids es
      → (n : ℕ) (m : String) → rank m < n
      → contains m ids ≡ true
      → contains m order ≡ true
  all_placed es ids last order inv low zero m bound here = absurd (omega arith)
  all_placed es ids last order inv low (suc n) m bound here =
      elim (Bool-cases (leb 1 (pending order m es))) [
        | inl waits ↦
            let (d, there, missing, lower) = waiting_for ids order m es low (ground arith) in
            let found = all_placed es ids last order inv low n d (omega arith) there in
            absurd (ground arith)
        | inr none_left ↦
            let placed = inv.complete m here (ground arith) in
            ground (arith, contains_of_count m order)
      ]

  -- A graph whose dependencies are stories raises no CycleError while it is built.
  add_deps_returns :
      (ids : List String) (id : String) (deps : List String) (more : Edges) (g : Degrees)
      → Descends ids (edges_to deps id ++ more)
      → (h : Degrees) × (add_deps ids id deps g ≡ ok h) × Descends ids more
  unfolding add_deps
  add_deps_returns ids id [] more g low = (g, refl, low)
  add_deps_returns ids id (d ∷ deps) more g ((_, here), low) =
      let (h, added, rest) = add_deps_returns ids id deps more (add_edge d id g) low in
      (h, rw here added, rest)

  add_stories_returns :
      (ids : List String) (stories : List Story) (g : Degrees)
      → Descends ids (edges_of stories)
      → (h : Degrees) × (add_stories ids stories g ≡ ok h)
  unfolding add_stories edges_of
  add_stories_returns ids [] g low = (g, refl)
  add_stories_returns ids (s ∷ ss) g low =
      let (k, added, rest) = add_deps_returns ids s.id s.depends_on (edges_of ss) g low in
      let (h, all_added) = add_stories_returns ids ss k rest in (h, rw added all_added)

-- Where no id stands twice, every dependency is a story and the graph has no cycle, that is some
-- rank falls from each story to its dependencies, `topo_order` returns an order.
pub topo_order_complete :
    (rank : String → ℕ) (stories : List Story)
    → IsUnique (ids_of_stories stories)
    → Descends rank (ids_of_stories stories) (edges_of stories)
    → (order : List String) × (topo_order stories ≡ some (ok order))
unfolding topo_order check_order degrees_of
topo_order_complete rank stories unique low =
    let empty : Degrees = record { indeg = []; adj = [] } in
    let (g, built) =
      add_stories_returns rank (ids_of_stories stories) stories (blank stories empty) low in
    let (order, last, ends, inv) = loop_ends stories g built in
    let ids = ids_of_stories stories in
    let size = length-ids stories g built stories in
    let few =
      length-le_of_once order ids (λ m. omega (arith, inv.once m))
        (λ m there. inv.listed m (ground (arith, contains_of_count m order))) in
    let many = length-le_of_once ids order (count-IsUnique ids unique) (λ m here.
      all_placed rank (edges_of stories) ids last order inv low (suc (rank m)) m (omega arith)
        here) in
    let full : eqb (length order) (length stories) ≡ true = ground arith in
    (order, rw (built, topo_order) (ground (arith, ends, full)))
