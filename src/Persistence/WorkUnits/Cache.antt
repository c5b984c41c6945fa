-- ===== src/Persistence/WorkUnits/Cache.antt =====
-- One unit to a key, and what the cache hands out.
mod Examples
use cobol_java_migrator_v.Prelude.{
  ℕ, String, ◌≡◌, refl, ap, subst, inl, inr, Bool, true, ◌&&◌, Option, none, some, List, [], ◌∷◌,
  ◌++◌, map, arith, eqb, if◌then◌else◌, Bool-cases, Option-cases, is_some, Eq, nat_eq, string_eq,
  pair_eq, option_eq,
}
use cobol_java_migrator_v.Prelude.Int.{ℤ}
use cobol_java_migrator_v.Persistence.WorkUnits.{
  is_terminal, UnitKey, WorkUnit, same_key, first, has_key, pending_unit, create_work_unit,
  find_cached_work_unit, update_unit, run_unit, succeed_unit, fail_unit, mark_work_unit_running,
  mark_work_unit_succeeded, mark_work_unit_failed,
}

abbrev strs : Eq String
strs = string_eq

same_key_refl : (k : UnitKey) → same_key k k ≡ true
same_key_refl k = ground (
  arith,
  strs.beq_iff k.workspace_id k.workspace_id,
  strs.beq_iff k.stage k.stage,
  strs.beq_iff k.unit_type k.unit_type,
  strs.beq_iff k.unit_key k.unit_key,
  strs.beq_iff k.input_hash k.input_hash,
)

module _ {P : Type 0} where
  first-append_new :
      (p : WorkUnit P → Bool) (us : List (WorkUnit P)) (u : WorkUnit P)
      → first p us ≡ none
      → first p (us ++ u ∷ []) ≡ (if p u then some u else none)
  unfolding first
  first-append_new p [] u h = refl
  first-append_new p (x ∷ us) u h = ground (arith, first-append_new p us u)

  first_sound :
      (p : WorkUnit P → Bool) (us : List (WorkUnit P)) (u : WorkUnit P)
      → first p us ≡ some u
      → p u ≡ true
  unfolding first
  first_sound p [] u h = cc
  first_sound p (x ∷ us) u h = ground (arith, first_sound p us u)

  module _ (i : ℕ) (k : UnitKey) (m : Option String) (t x : Option ℕ) (us : List (WorkUnit P)) where
    create_absent :
        first (has_key k) us ≡ none
        → create_work_unit i k m t x us
          ≡ (pending_unit i k m t x, us ++ pending_unit i k m t x ∷ [])
    unfolding create_work_unit
    create_absent absent = rw (absent, create_work_unit) refl

    create_present :
        (u : WorkUnit P) → first (has_key k) us ≡ some u → create_work_unit i k m t x us ≡ (u, us)
    unfolding create_work_unit
    create_present u found = rw (found, create_work_unit) refl

    has_key-pending_unit : has_key k (pending_unit {P = P} i k m t x) ≡ true
    unfolding has_key pending_unit
    has_key-pending_unit = same_key_refl k

    found_new :
        first (has_key k) us ≡ none
        → first (has_key k) (us ++ pending_unit i k m t x ∷ []) ≡ some (pending_unit i k m t x)
    found_new absent =
        rw (first-append_new (has_key k) us (pending_unit i k m t x) absent, has_key-pending_unit)
          refl

  -- Creating a unit twice with one key, whatever else differs, returns the first unit and leaves the
  -- table as the first call did; the unit has the key.
  create_twice :
      (i j : ℕ) (k : UnitKey) (m n : Option String) (t s x y : Option ℕ) (us : List (WorkUnit P))
      → let c = create_work_unit i k m t x us in
        (create_work_unit j k n s y c.1 ≡ c) × (has_key k c.0 ≡ true)
  create_twice i j k m n t s x y us = elim (Option-cases (first (has_key k) us)) [
    | inl absent ↦ rw (create_absent i k m t x us absent) (
      create_present j k n s y _ _ (found_new i k m t x us absent),
      has_key-pending_unit i k m t x us,
    )
    | inr (u, found) ↦
        rw (create_present i k m t x us u found)
          (create_present j k n s y us u found, first_sound (has_key k) us u found)
  ]

  abbrev has_id : ℕ → WorkUnit P → Bool
  has_id i u = eqb u.id i

  update_unit-first :
      (i : ℕ) (f : WorkUnit P → WorkUnit P) (t : WorkUnit P → Bool) (k : UnitKey)
      (us us' : List (WorkUnit P)) (u : WorkUnit P)
      → first (has_id i) us ≡ some u
      → first (has_key k) us ≡ some u
      → update_unit i f us ≡ some us'
      → (has_key k (f u) && t (f u)) ≡ true
      → first (λ v. has_key k v && t v) us' ≡ some (f u)
  unfolding update_unit first
  update_unit-first i f t k [] us' u found keyed e h = cc
  update_unit-first i f t k (x ∷ us) us' u found keyed e h = elim (Bool-cases (eqb x.id i)) [
    | inl here ↦
        let same : f x ∷ us ≡ us' = ground arith in
        let who : x ≡ u = ground arith in
        subst (λ l. first (λ v. has_key k v && t v) l ≡ some (f u)) same (ground (arith, h, who))
    | inr later ↦ elim (Option-cases (update_unit i f us)) [
      | inl missing ↦ absurd (ground arith)
      | inr (rest, done) ↦
          let same : x ∷ rest ≡ us' = ground arith in
          let named = first_sound (has_id i) (x ∷ us) u found in
          elim (Bool-cases (has_key k x)) [
            | inl mine ↦
                let who : x ≡ u = ground arith in
                absurd (ground (arith, named, ap (λ (v : WorkUnit P). eqb v.id i) who))
            | inr other ↦
                let ih = update_unit-first i f t k us rest u (ground arith) (ground arith) done h in
                subst (λ l. first (λ v. has_key k v && t v) l ≡ some (f u)) same
                  (ground (arith, ih, other))
          ]
    ]
  ]

  -- Where a unit is the one that the table finds for its key, marking it succeeded, cached or not,
  -- leaves a table from which the cache hands out that unit, as marked, for the key; and whatever
  -- the cache hands out of that table for a key has that key and a terminal status.
  cached_after_success :
      (i : ℕ) (payload : P) (cost : ℤ) (artifact : Option String) (was_cached : Bool) (now : ℕ)
      (us us' : List (WorkUnit P)) (u : WorkUnit P)
      → first (has_id i) us ≡ some u
      → first (has_key u.key) us ≡ some u
      → mark_work_unit_succeeded i payload cost artifact was_cached now us ≡ some us'
      → (find_cached_work_unit u.key us'
          ≡ some (succeed_unit payload cost artifact was_cached now u))
        × ((k : UnitKey) (v : WorkUnit P)
            → find_cached_work_unit k us' ≡ some v
            → (has_key k v ≡ true) × (is_terminal v.status ≡ true))
  unfolding mark_work_unit_succeeded find_cached_work_unit has_key
  cached_after_success i payload cost artifact was_cached now us us' u found keyed e = (
    update_unit-first i (succeed_unit payload cost artifact was_cached now)
        (λ v. is_terminal v.status) u.key us us' u found keyed e
        (ground (arith, same_key_refl u.key)),
    λ k v got.
        let h = first_sound (λ w. has_key k w && is_terminal w.status) us' v got in
        (ground (arith, h), ground (arith, h)),
  )

  keys_of : List (WorkUnit P) → List UnitKey
  keys_of = map (λ u. u.key)

  update_unit-keys :
      (i : ℕ) (f : WorkUnit P → WorkUnit P) (us us' : List (WorkUnit P))
      → ((u : WorkUnit P) → (f u).key ≡ u.key)
      → update_unit i f us ≡ some us'
      → keys_of us' ≡ keys_of us
  unfolding update_unit keys_of
  update_unit-keys i f [] us' same e = cc
  update_unit-keys i f (x ∷ us) us' same e = elim (Bool-cases (eqb x.id i)) [
    | inl here ↦
        let now : f x ∷ us ≡ us' = ground arith in
        subst (λ l. keys_of l ≡ keys_of (x ∷ us)) now (ap (λ k. k ∷ keys_of us) (same x))
    | inr later ↦ elim (Option-cases (update_unit i f us)) [
      | inl missing ↦ absurd (ground arith)
      | inr (rest, done) ↦
          let now : x ∷ rest ≡ us' = ground arith in
          subst (λ l. keys_of l ≡ keys_of (x ∷ us)) now
            (ap (λ ks. x.key ∷ ks) (update_unit-keys i f us rest same done))
    ]
  ]

  -- No transition of a unit changes the key of any, adds one or drops one.
  transitions_keep_keys :
      (i : ℕ) (us us' : List (WorkUnit P)) (now : ℕ)
      → ((model : Option String) (timeout_s max_turns : Option ℕ)
          → mark_work_unit_running i model timeout_s max_turns now us ≡ some us'
          → keys_of us' ≡ keys_of us)
        × ((payload : P) (cost : ℤ) (artifact : Option String) (was_cached : Bool)
            → mark_work_unit_succeeded i payload cost artifact was_cached now us ≡ some us'
            → keys_of us' ≡ keys_of us)
        × ((cause : String) (payload : Option P) (cost : ℤ) (is_deferred : Bool)
            → mark_work_unit_failed i cause payload cost is_deferred now us ≡ some us'
            → keys_of us' ≡ keys_of us)
  unfolding mark_work_unit_running mark_work_unit_succeeded mark_work_unit_failed
  transitions_keep_keys i us us' now = (
    λ m t x. update_unit-keys i (run_unit m t x now) us us' (λ u. refl),
    λ p c a b. update_unit-keys i (succeed_unit p c a b now) us us' (λ u. refl),
    λ z p c d. update_unit-keys i (fail_unit z p c d now) us us' (λ u. refl),
  )
