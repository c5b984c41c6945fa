-- ===== src/Planner/Dag/Order.antt =====
-- The order of the stories: every story once, after its dependencies.
use cobol_java_migrator_v.Prelude.{
  ℕ, zero, suc, ◌+◌, ◌-◌, ◌≤◌, ◌<◌, String, ◌≡◌, refl, sym, ap, ◌∙◌, subst, inl, inr, true, false,
  not, ◌&&◌, some, List, [], ◌∷◌, ◌++◌, arith, ltb, leb, if◌then◌else◌, Bool-cases, ◌==◌, nat_eq,
  string_eq, pair_eq, option_eq, beq_refl, length, keep_if, contains, count, contains_of_count,
  count-sorted_by, contains-append, count-append, text_leb, sorted,
}
use cobol_java_migrator_v.Prelude.Dict.{Dict, put, get-put}
use mathlib.Core.List.{append_assoc, append-nil}
use cobol_java_migrator_v.Planner.Dag.{degree, targets, release, topo_loop}
use cobol_java_migrator_v.Planner.Dag.Graph.{Edges, links, pending, pending-done}

release-degree :
    (m : String) (ts : List String) (indeg : Dict String ℕ)
    → degree (release ts indeg).0 m ≡ degree indeg m - count m ts
unfolding release
release-degree m [] indeg = omega arith
release-degree m (t ∷ ts) indeg =
    let next = put t (degree indeg t - 1) indeg in
    let rest = release-degree m ts next in
    let here = get-put t m (degree indeg t - 1) indeg in
    elim (Bool-cases (t == m)) [
      | inl same ↦
          let at_t = ap (degree indeg) ((string_eq.beq_iff t m).0 same) in
          ground (arith, rest, here, same)
      | inr other ↦ ground (arith, rest, here, other)
    ]

-- What is set free has had edges, and has none left; it is set free once.
release-count :
    (m : String) (ts : List String) (indeg : Dict String ℕ)
    → count m (release ts indeg).1
      ≡ (if ltb 0 (degree indeg m) && leb (degree indeg m) (count m ts) then 1 else 0)
unfolding release
release-count m [] indeg = ground arith
release-count m (t ∷ ts) indeg =
    let next = put t (degree indeg t - 1) indeg in
    let rest = release-count m ts next in
    let here = get-put t m (degree indeg t - 1) indeg in
    elim (Bool-cases (t == m)) [
      | inl same ↦
          let at_t = ap (degree indeg) ((string_eq.beq_iff t m).0 same) in
          ground (arith, rest, here, same)
      | inr other ↦ ground (arith, rest, here, other)
    ]

-- Each story is placed where no edge leads to it from a story that is not placed before.
module _ (es : Edges) where
  unfoldable pub DepsFirst : List String → List String → Type 0
  DepsFirst done [] = Unit
  DepsFirst done (x ∷ xs) = (pending done x es ≡ 0) × DepsFirst (done ++ x ∷ []) xs

  DepsFirst-append_one :
      (done xs : List String) (x : String)
      → DepsFirst done xs
      → pending (done ++ xs) x es ≡ 0
      → DepsFirst done (xs ++ x ∷ [])
  unfolding DepsFirst
  DepsFirst-append_one done [] x h free_now = (rw append-nil at free_now, tt)
  DepsFirst-append_one done (y ∷ ys) x (p, h) free_now = (
    p,
    DepsFirst-append_one (done ++ y ∷ []) ys x h
        (subst (λ l. pending l x es ≡ 0) (sym (append_assoc done (y ∷ []) ys)) free_now),
  )

  -- The state of the loop: a degree counts the edges from stories that are not placed, what waits
  -- in the queue is free, and nothing is queued or placed twice.
  pub record Inv (ids : List String) (queue : List String) (indeg : Dict String ℕ)
      (order : List String) : Type 0 where
    pub degrees : (m : String) → degree indeg m ≡ pending order m es
    pub queued : (m : String) → 1 ≤ count m queue → pending order m es ≡ 0
    pub once : (m : String) → count m queue + count m order ≤ 1
    pub placed : (m : String) → 1 ≤ count m order → pending order m es ≡ 0
    pub first : DepsFirst [] order
    pub known : (m : String) → 1 ≤ count m queue → contains m ids ≡ true
    pub listed : (m : String) → 1 ≤ count m order → contains m ids ≡ true
    pub complete :
        (m : String)
        → contains m ids ≡ true
        → pending order m es ≡ 0
        → 1 ≤ count m queue + count m order

  Inv-round :
      (ids : List String) (adj : Dict String (List String)) (n : String) (queue : List String)
      (indeg : Dict String ℕ) (order : List String)
      → ((k m : String) → count m (targets adj k) ≡ links k m es)
      → ((done : List String) (m : String) → 1 ≤ pending done m es → contains m ids ≡ true)
      → Inv ids (n ∷ queue) indeg order
      → let next = release (sorted (targets adj n)) indeg in
        Inv ids (queue ++ next.1) next.0 (order ++ n ∷ [])
  Inv-round ids adj n queue indeg order from into h =
      let next = release (sorted (targets adj n)) indeg in
      let n_free = h.queued n (ground (arith, beq_refl n)) in
      let n_once = h.once n in
      let fresh : contains n order ≡ false =
        ground (arith, beq_refl n, contains_of_count n order) in
      let after = λ (m : String). pending-done order n m es fresh in
      let edges = λ (m : String). count-sorted_by text_leb m (targets adj n) ∙ from n m in
      let lower = λ (m : String). release-degree m (sorted (targets adj n)) indeg in
      let ready = λ (m : String). release-count m (sorted (targets adj n)) indeg in
      let joined = λ (m : String). count-append m queue next.1 in
      let longer = λ (m : String). count-append m order (n ∷ []) in
      record {
        degrees = λ m. omega (arith, h.degrees m, after m, edges m, lower m);
        queued =
            λ m q. ground (arith, h.degrees m, h.queued m, after m, edges m, ready m, joined m);
        once = λ m.
            ground
              (arith, h.degrees m, h.queued m, h.once m, h.placed m, ready m, joined m, longer m);
        placed = λ m p. ground (arith, h.queued m, h.placed m, after m, longer m);
        first = DepsFirst-append_one [] order n h.first n_free;
        known = λ m q. ground (arith, h.degrees m, h.known m, into order m, ready m, joined m);
        listed = λ m p. ground (arith, h.known m, h.listed m, longer m);
        complete = λ m here none_left.
            ground (
              arith,
              h.degrees m,
              h.complete m here,
              after m,
              edges m,
              ready m,
              joined m,
              longer m,
            );
      }

  next_fresh :
      (ids : List String) (n : String) (queue : List String) (indeg : Dict String ℕ)
      (order : List String)
      → Inv ids (n ∷ queue) indeg order
      → (contains n ids ≡ true) × (contains n order ≡ false)
  next_fresh ids n queue indeg order h =
      let n_once = h.once n in
      (
        h.known n (ground (arith, beq_refl n)),
        ground (arith, beq_refl n, contains_of_count n order),
      )

  -- The ids that are not placed.
  unfoldable pub left : List String → List String → ℕ
  left order ids = length (keep_if (λ i. not (contains i order)) ids)

  left_le :
      (order : List String) (n : String) (ids : List String)
      → left (order ++ n ∷ []) ids ≤ left order ids
  unfolding left
  left_le order n [] = omega arith
  left_le order n (i ∷ ids) = ground (arith, left_le order n ids, contains-append i order (n ∷ []))

  left_lt :
      (order : List String) (n : String) (ids : List String)
      → contains n ids ≡ true
      → contains n order ≡ false
      → left (order ++ n ∷ []) ids < left order ids
  unfolding left
  left_lt order n [] here fresh = absurd (ground arith)
  left_lt order n (i ∷ ids) here fresh = elim (Bool-cases (i == n)) [
    | inl same ↦
        let at_i = ap (λ x. contains x order) ((string_eq.beq_iff i n).0 same) in
        ground (
          arith,
          left_le order n ids,
          contains-append i order (n ∷ []),
          string_eq.beq_iff n i,
          string_eq.beq_iff i n,
        )
    | inr other ↦ ground (arith, left_lt order n ids, contains-append i order (n ∷ []))
  ]

  pub topo_loop_ends :
      (ids : List String) (adj : Dict String (List String)) (fuel : ℕ) (queue : List String)
      (indeg : Dict String ℕ) (order : List String)
      → ((k m : String) → count m (targets adj k) ≡ links k m es)
      → ((done : List String) (m : String) → 1 ≤ pending done m es → contains m ids ≡ true)
      → Inv ids queue indeg order
      → left order ids ≤ fuel
      → (end : List String) × (last : Dict String ℕ) × (topo_loop adj fuel queue indeg order
          ≡ some end)
        × Inv ids [] last end
  unfolding topo_loop
  topo_loop_ends ids adj zero [] indeg order from into h enough = (order, indeg, refl, h)
  topo_loop_ends ids adj (suc fuel) [] indeg order from into h enough = (order, indeg, refl, h)
  topo_loop_ends ids adj zero (n ∷ queue) indeg order from into h enough =
      let (here, fresh) = next_fresh ids n queue indeg order h in
      absurd (omega (arith, left_lt order n ids here fresh))
  topo_loop_ends ids adj (suc fuel) (n ∷ queue) indeg order from into h enough =
      let (here, fresh) = next_fresh ids n queue indeg order h in
      let less = left_lt order n ids here fresh in
      let next = release (sorted (targets adj n)) indeg in
      topo_loop_ends ids adj fuel (queue ++ next.1) next.0 (order ++ n ∷ []) from into
        (Inv-round ids adj n queue indeg order from into h) (omega arith)
