-- ===== src/Prelude/Dict.antt =====
-- Python's `dict`: an association list in insertion order, one entry to a key.
use mathlib.Core.Path.{◌≡◌, refl}
use mathlib.Core.Logic.{inl, inr}
use mathlib.Core.Bool.{false, ◌||◌}
use mathlib.Core.Option.{Option, none, some}
use mathlib.Core.List.{List, [], ◌∷◌, map}
use native.Mathlib.Omega.{arith}
use cobol_java_migrator_v.Prelude.Tests.{if◌then◌else◌, Bool-cases}
use cobol_java_migrator_v.Prelude.Equality.{Eq, ◌==◌}
use cobol_java_migrator_v.Prelude.Lists.{contains, IsUnique, All}

abbrev pub Dict {ℓ κ} : Type ℓ → Type κ → Type (ℓ ⊔ κ)
Dict K V = List (K × V)

module _ {ℓ κ} {K : Type ℓ} {V : Type κ} where
  abbrev pub keys : Dict K V → List K
  keys = map (λ e. e.0)

  abbrev pub values : Dict K V → List V
  values = map (λ e. e.1)

module _ {ℓ κ} {K : Type ℓ} {V : Type κ} ⦃e : Eq K⦄ where
  -- d.get(k)
  unfoldable pub get : K → Dict K V → Option V
  get k [] = none
  get k ((j, v) ∷ d) = if j == k then some v else get k d

  -- d[k] = v
  unfoldable pub put : K → V → Dict K V → Dict K V
  put k v [] = (k, v) ∷ []
  put k v ((j, w) ∷ d) = if j == k then (j, v) ∷ d else (j, w) ∷ put k v d

  -- d.pop(k, None); a key stands in one entry, so the first is the only one.
  pub pop : K → Dict K V → Dict K V
  pop k [] = []
  pop k ((j, w) ∷ d) = let rest = pop k d in if j == k then rest else (j, w) ∷ rest

  pub get-put :
      (k j : K) (v : V) (d : Dict K V) → get j (put k v d) ≡ (if k == j then some v else get j d)
  unfolding get put
  get-put k j v [] = refl
  get-put k j v ((i, w) ∷ d) =
      ground (arith, get-put k j v d, e.beq_iff i k, e.beq_iff i j, e.beq_iff k j)

  pub get-pop : (k j : K) (d : Dict K V) → get j (pop k d) ≡ (if k == j then none else get j d)
  unfolding get pop
  get-pop k j [] = ground arith
  get-pop k j ((i, w) ∷ d) =
      ground (arith, get-pop k j d, e.beq_iff i k, e.beq_iff i j, e.beq_iff k j)

  pub get-put_self : (k : K) (v : V) (d : Dict K V) → get k (put k v d) ≡ some v
  get-put_self k v d = ground (arith, get-put k k v d, e.beq_iff k k)

ruleset dict_laws = (get-put, get-pop, get-put_self)

-- A dict that is built by assignments has a key once, so that each of its entries is what `get`
-- finds.
module _ {ℓ κ} {K : Type ℓ} {V : Type κ} ⦃e : Eq K⦄ where
  pub contains-keys-put :
      (m k : K) (v : V) (d : Dict K V)
      → contains m (keys (put k v d)) ≡ (k == m || contains m (keys d))
  unfolding put
  contains-keys-put m k v [] = refl
  contains-keys-put m k v ((j, w) ∷ d) =
      ground (arith, contains-keys-put m k v d, e.beq_iff j k, e.beq_iff j m, e.beq_iff k m)

  pub put-IsUnique :
      (k : K) (v : V) (d : Dict K V) → IsUnique (keys d) → IsUnique (keys (put k v d))
  unfolding put
  put-IsUnique k v [] u = (refl, tt)
  put-IsUnique k v ((j, w) ∷ d) (fresh, u) = elim (Bool-cases (j == k)) [
    | inl same ↦ rw (same, put) (fresh, u)
    | inr other ↦
        let there = contains-keys-put j k v d in
        rw (other, put) (ground (arith, e.beq_iff j k, e.beq_iff k j), put-IsUnique k v d u)
  ]

  later_entries :
      (j : K) (w : V) (d es : Dict K V)
      → contains j (keys es) ≡ false
      → All (λ x. get x.0 d ≡ some x.1) es
      → All (λ x. get x.0 ((j, w) ∷ d) ≡ some x.1) es
  unfolding get
  later_entries j w d [] fresh h = tt
  later_entries j w d ((i, v) ∷ es) fresh (here, h) =
      (ground (arith, e.beq_iff j i, e.beq_iff i j), later_entries j w d es (ground arith) h)

  pub get-entries : (d : Dict K V) → IsUnique (keys d) → All (λ x. get x.0 d ≡ some x.1) d
  unfolding get
  get-entries [] u = tt
  get-entries ((j, w) ∷ d) (fresh, u) =
      (ground (arith, e.beq_iff j j), later_entries j w d d fresh (get-entries d u))
