-- ===== src/Equivalence/Subslice/Groups.antt =====
-- What a group holds.
use cobol_java_migrator_v.Prelude.{
  String, ◌≡◌, refl, sym, ap, ◌∙◌, inl, inr, List, [], ◌∷◌, ◌++◌, if◌then◌else◌, Bool-cases,
  or_else, ◌==◌, nat_eq, string_eq, pair_eq, option_eq, keep_if,
}
use cobol_java_migrator_v.Prelude.Dict.{Dict, get, get-put}
use cobol_java_migrator_v.Equivalence.Differ.{Row}
use cobol_java_migrator_v.Equivalence.Subslice.{
  subslice_key_of, add_to, split_from, split_by_subslice,
}

append_assoc : (xs : List Row) (x : Row) (ys : List Row) → (xs ++ x ∷ []) ++ ys ≡ xs ++ (x ∷ ys)
append_assoc [] x ys = refl
append_assoc (y ∷ xs) x ys = ap (λ l. y ∷ l) (append_assoc xs x ys)

append-empty : (xs : List Row) → xs ++ [] ≡ xs
append-empty [] = refl
append-empty (y ∷ xs) = ap (λ l. y ∷ l) (append-empty xs)

held :
    (k j : String) (r : Row) (groups : Dict String (List Row))
    → or_else (get k (add_to j r groups)) []
      ≡ (if j == k then or_else (get k groups) [] ++ r ∷ [] else or_else (get k groups) [])
unfolding add_to
held k j r groups =
    rw (get-put j k (or_else (get j groups) [] ++ r ∷ []) groups) (elim (Bool-cases (j == k)) [
      | inl mine ↦ rw (mine, (string_eq.beq_iff j k).0 mine) refl
      | inr other ↦ rw other refl
    ])

get-split_from :
    (k : String) (groups : Dict String (List Row)) (rs : List Row)
    → or_else (get k (split_from groups rs)) []
      ≡ or_else (get k groups) [] ++ keep_if (λ r. subslice_key_of r == k) rs
unfolding split_from
get-split_from k groups [] = sym (append-empty (or_else (get k groups) []))
get-split_from k groups (r ∷ rs) =
    let mine = keep_if (λ r. subslice_key_of r == k) rs in
    get-split_from k (add_to (subslice_key_of r) r groups) rs
    ∙ ap (λ l. l ++ mine) (held k (subslice_key_of r) r groups)
    ∙ elim (Bool-cases (subslice_key_of r == k)) [
      | inl here ↦ rw here (append_assoc (or_else (get k groups) []) r mine)
      | inr other ↦ rw other refl
    ]

-- The group of a sub-slice holds the records of that key, all of them and in their order.
split_by_subslice-groups :
    (k : String) (rs : List Row)
    → or_else (get k (split_by_subslice rs)) [] ≡ keep_if (λ r. subslice_key_of r == k) rs
unfolding split_by_subslice get
split_by_subslice-groups k rs = get-split_from k [] rs
