-- ===== src/Equivalence/Subslice.antt =====
-- The split of records by sub-slice (src/cobol_modernizer/equivalence/lab.py).
mod Groups
use cobol_java_migrator_v.Prelude.{
  String, none, some, List, [], ◌∷◌, ◌++◌, if◌then◌else◌, or_else, ◌==◌, nat_eq, string_eq, pair_eq,
  option_eq,
}
use cobol_java_migrator_v.Prelude.Dict.{Dict, get, put}
use cobol_java_migrator_v.Equivalence.Differ.{Row}

-- The first of the key fields that is present and not "".
unfoldable subslice_in : List String → Row → String
subslice_in [] r = "<whole>"
subslice_in (f ∷ fs) r = elim (get f r) [
  | none ↦ subslice_in fs r
  | some v ↦ if v == "" then subslice_in fs r else v
]

abbrev subslice_key_fields : List String
subslice_key_fields =
    "program" ∷ "_program" ∷ "context" ∷ "_context" ∷ "cobol_context" ∷ "copybook" ∷ []

unfoldable pub subslice_key_of : Row → String
unfolding subslice_in
subslice_key_of r = subslice_in subslice_key_fields r

-- groups.setdefault(key, []).append(r)
pub add_to : String → Row → Dict String (List Row) → Dict String (List Row)
add_to k r groups = put k (or_else (get k groups) [] ++ r ∷ []) groups

pub split_from : Dict String (List Row) → List Row → Dict String (List Row)
split_from groups [] = groups
split_from groups (r ∷ rs) = split_from (add_to (subslice_key_of r) r groups) rs

pub split_by_subslice : List Row → Dict String (List Row)
split_by_subslice records = split_from [] records
