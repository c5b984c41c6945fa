-- ===== src/Prelude/Sorting.antt =====
-- Python's `sorted`: a stable sort by a Boolean order, and the order of texts by code points.
use Prim.Native.Char.{code}
use Prim.Native.String.{String}
use Prim.Native.Nat.{ℕ, suc}
use mathlib.Core.Path.{◌≡◌, refl, sym, ap, ◌∙◌}
use mathlib.Core.Logic.{inl, inr}
use mathlib.Core.Bool.{Bool, true, false, not, ◌||◌, ◌&&◌}
use mathlib.Core.List.{List, [], ◌∷◌, Perm}
use mathlib.Core.List.Perm
use native.Mathlib.Omega.{arith}
use cobol_java_migrator_v.Prelude.Tests.{ltb, eqb, if◌then◌else◌, Bool-cases}
use cobol_java_migrator_v.Prelude.Equality.{Eq, ◌==◌, string_eq}
use cobol_java_migrator_v.Prelude.Lists.{length, is_empty, keep_if, contains, count}

abbrev codes : String → List ℕ
codes String.[] = []
codes (String.◌∷◌ c s) = code c ∷ codes s

abbrev lex_leb : List ℕ → List ℕ → Bool
lex_leb [] ys = true
lex_leb (x ∷ xs) [] = false
lex_leb (x ∷ xs) (y ∷ ys) = ltb x y || (eqb x y && lex_leb xs ys)

-- a <= b on texts.
abbrev pub text_leb : String → String → Bool
text_leb a b = lex_leb (codes a) (codes b)

module _ {ℓ} {A : Type ℓ} (le : A → A → Bool) where
  unfoldable pub insert_by : A → List A → List A
  insert_by x [] = x ∷ []
  insert_by x (y ∷ ys) = if le x y then x ∷ y ∷ ys else y ∷ insert_by x ys

  -- sorted(xs, key=...), the order of the keys given as `le`.
  unfoldable pub sorted_by : List A → List A
  unfolding insert_by
  sorted_by [] = []
  sorted_by (x ∷ xs) = insert_by x (sorted_by xs)

  insert_by-perm : (x : A) (ys : List A) → Perm (insert_by x ys) (x ∷ ys)
  unfolding insert_by
  insert_by-perm x [] = Perm.refl _
  insert_by-perm x (y ∷ ys) =
      let rest = Perm.trans (Perm.cons y (insert_by-perm x ys)) (Perm.swap x y ys) in
      ground (arith, rest, Perm.refl (x ∷ y ∷ ys))

  sorted_by-perm : (xs : List A) → Perm (sorted_by xs) xs
  unfolding sorted_by
  sorted_by-perm [] = Perm.refl []
  sorted_by-perm (x ∷ xs) =
      Perm.trans (insert_by-perm x (sorted_by xs)) (Perm.cons x (sorted_by-perm xs))

  length-insert_by : (x : A) (ys : List A) → length (insert_by x ys) ≡ suc (length ys)
  unfolding insert_by
  length-insert_by x [] = refl
  length-insert_by x (y ∷ ys) = ground (arith, length-insert_by x ys)

  pub length-sorted_by : (xs : List A) → length (sorted_by xs) ≡ length xs
  unfolding sorted_by
  length-sorted_by [] = refl
  length-sorted_by (x ∷ xs) = omega (arith, length-insert_by x (sorted_by xs), length-sorted_by xs)

  module _ ⦃e : Eq A⦄ where
    contains-insert_by :
        (a x : A) (ys : List A) → contains a (insert_by x ys) ≡ (x == a || contains a ys)
    unfolding insert_by
    contains-insert_by a x [] = refl
    contains-insert_by a x (y ∷ ys) = ground (arith, contains-insert_by a x ys)

    -- Sorting changes no membership.
    pub contains-sorted_by : (a : A) (xs : List A) → contains a (sorted_by xs) ≡ contains a xs
    unfolding sorted_by
    contains-sorted_by a [] = refl
    contains-sorted_by a (x ∷ xs) =
        contains-insert_by a x (sorted_by xs) ∙ ap (λ b. x == a || b) (contains-sorted_by a xs)

module _ {ℓ} {A : Type ℓ} ⦃e : Eq A⦄ (le : A → A → Bool) where
  count-insert_by : (a x : A) (ys : List A) → count a (insert_by le x ys) ≡ count a (x ∷ ys)
  unfolding insert_by
  count-insert_by a x [] = refl
  count-insert_by a x (y ∷ ys) = ground (arith, count-insert_by a x ys)

  -- Sorting keeps how often an element stands.
  pub count-sorted_by : (a : A) (xs : List A) → count a (sorted_by le xs) ≡ count a xs
  unfolding sorted_by
  count-sorted_by a [] = refl
  count-sorted_by a (x ∷ xs) =
      ground (arith, count-insert_by a x (sorted_by le xs), count-sorted_by a xs)

-- Each element is at most the next.
module _ {ℓ} {A : Type ℓ} (le : A → A → Bool) where
  abbrev pub IsSorted : List A → Type 0
  IsSorted [] = Unit
  IsSorted (x ∷ []) = Unit
  IsSorted (x ∷ y ∷ ys) = (le x y ≡ true) × IsSorted (y ∷ ys)

  module _ (total : (a b : A) → (le a b || le b a) ≡ true) where
    insert_by-IsSorted : (x : A) (ys : List A) → IsSorted ys → IsSorted (insert_by le x ys)
    unfolding insert_by
    insert_by-IsSorted x [] h = tt
    insert_by-IsSorted x (y ∷ []) h = ground (arith, total x y)
    insert_by-IsSorted x (y ∷ z ∷ zs) (low, h) =
        ground (arith, total x y, low, insert_by-IsSorted x (z ∷ zs) h)

    pub sorted_by-IsSorted : (xs : List A) → IsSorted (sorted_by le xs)
    unfolding sorted_by
    sorted_by-IsSorted [] = tt
    sorted_by-IsSorted (x ∷ xs) = insert_by-IsSorted x (sorted_by le xs) (sorted_by-IsSorted xs)

lex_leb_total : (xs ys : List ℕ) → (lex_leb xs ys || lex_leb ys xs) ≡ true
lex_leb_total [] ys = refl
lex_leb_total (x ∷ xs) [] = refl
lex_leb_total (x ∷ xs) (y ∷ ys) = ground (arith, lex_leb_total xs ys)

pub text_leb_total : (a b : String) → (text_leb a b || text_leb b a) ≡ true
text_leb_total a b = lex_leb_total (codes a) (codes b)

-- sorted(names)
abbrev pub sorted : List String → List String
sorted = sorted_by text_leb

-- The elements without repetition, as Python's `set` holds them, in the order of last occurrence.
module _ {ℓ} {A : Type ℓ} ⦃e : Eq A⦄ where
  abbrev pub to_set : List A → List A
  to_set [] = []
  to_set (x ∷ xs) = if contains x xs then to_set xs else x ∷ to_set xs

  pub contains-to_set : (a : A) (xs : List A) → contains a (to_set xs) ≡ contains a xs
  contains-to_set a [] = refl
  contains-to_set a (x ∷ xs) = ground (arith, contains-to_set a xs, e.beq_iff x a)

  pub count-to_set : (a : A) (xs : List A) → count a (to_set xs) ≡ (if contains a xs then 1 else 0)
  count-to_set a [] = refl
  count-to_set a (x ∷ xs) = ground (arith, count-to_set a xs, e.beq_iff x a)

contains_empty : (a : String) (xs : List String) → is_empty xs ≡ true → contains a xs ≡ false
contains_empty a [] h = refl
contains_empty a (x ∷ xs) h = cc

contains-keep_if :
    (p : String → Bool) (a : String) (xs : List String)
    → contains a (keep_if p xs) ≡ (contains a xs && p a)
contains-keep_if p a [] = refl
contains-keep_if p a (x ∷ xs) = elim (Bool-cases (x == a)) [
  | inl same ↦ rw ((string_eq.beq_iff x a).0 same) (ground (arith, contains-keep_if p a xs))
  | inr other ↦ ground (arith, contains-keep_if p a xs, other)
]

-- Where sorted(set(xs) - set(ys)) is empty, every member of the first is one of the second.
pub empty-difference :
    (xs ys : List String)
    → is_empty (sorted (keep_if (λ x. not (contains x ys)) (to_set xs))) ≡ true
    → (a : String) → contains a xs ≡ true
    → contains a ys ≡ true
empty-difference xs ys h a member =
    let kept = keep_if (λ x. not (contains x ys)) (to_set xs) in
    let nothing = sym (contains-sorted_by text_leb a kept) ∙ contains_empty a (sorted kept) h in
    ground (
      arith,
      nothing,
      contains-keep_if (λ x. not (contains x ys)) a (to_set xs),
      contains-to_set a xs,
      member,
    )
