-- ===== src/StoryRunner/Paths/Scope.antt =====
-- What is written, and where.
mod Examples
use cobol_java_migrator_v.Prelude.{
  ◌-◌, String, ◌≡◌, refl, map, ◌==◌, ◌∙◌, ap, inl, inr, true, false, List, [], ◌∷◌, arith,
  Bool-cases, ok, Result-cases, nat_eq, string_eq, pair_eq, option_eq, beq_refl, is_empty, All,
  contains,
}
use cobol_java_migrator_v.Prelude.Dict.{Dict, get, put, get-put}
use cobol_java_migrator_v.Codegen.RepairLoop.{GeneratedFile}
use cobol_java_migrator_v.StoryRunner.Paths.{
  normalize_generated_path, is_relative_to, write_files, normalize_all, outside, file_paths,
  enforce_patch_scope,
}

-- Whatever files are given, and also where one of them is refused, nothing that does not stand
-- under the module's root is changed.
pub write_files-root :
    (resolve : String → String) (root : String) (files : List GeneratedFile)
    (disk : Dict String String) (dest : String)
    → is_relative_to dest root ≡ false
    → get dest (write_files resolve root files disk).1 ≡ get dest disk
unfolding write_files
write_files-root resolve root [] disk dest out = refl
write_files-root resolve root (f ∷ fs) disk dest out =
    elim (Result-cases (normalize_generated_path f.path)) [
      | inl (e, refused) ↦ ground (arith, refused)
      | inr (rel, normal) ↦
          let rest = write_files-root resolve root fs (put (resolve rel) f.content disk) dest out in
          let here = get-put (resolve rel) dest f.content disk in
          ground (
            arith,
            normal,
            rest,
            here,
            string_eq.beq_iff (resolve rel) dest,
            ap (λ d. is_relative_to d root),
          )
    ]

outside-none :
    (scope ps : List String)
    → outside scope ps ≡ ok []
    → (rels : List String) × (normalize_all ps ≡ ok rels) × All (λ r. contains r scope ≡ true) rels
unfolding outside normalize_all
outside-none scope [] h = ([], refl, tt)
outside-none scope (p ∷ ps) h = elim (Result-cases (normalize_generated_path p)) [
  | inl (e, refused) ↦ absurd (ground (arith, refused))
  | inr (rel, normal) ↦ elim (Result-cases (outside scope ps)) [
    | inl (e, refused) ↦ absurd (ground (arith, normal, refused))
    | inr (offenders, found) ↦ elim (Bool-cases (contains rel scope)) [
      | inl here ↦
          let none_left : offenders ≡ [] = ground (arith, normal, found, here) in
          let (rels, rest, all_in) = outside-none scope ps (rw none_left at found) in
          (rel ∷ rels, ground (arith, normal, rest), (here, all_in))
      | inr missing ↦ absurd (ground (arith, normal, found, missing))
    ]
  ]
]

contains-map :
    (f : String → String) (x : String) (xs : List String)
    → contains x xs ≡ true
    → contains (f x) (map f xs) ≡ true
contains-map f x [] h = absurd (ground arith)
contains-map f x (y ∷ ys) h = elim (Bool-cases (y == x)) [
  | inl same ↦
      let at_x = ap f ((string_eq.beq_iff y x).0 same) in
      ground (arith, string_eq.beq_iff (f y) (f x), at_x)
  | inr other ↦ ground (arith, contains-map f x ys (ground arith))
]

-- Files whose normal forms are all in a scope change the disk at the places of the scope only.
write_files-scope :
    (resolve : String → String) (root : String) (files : List GeneratedFile)
    (scope rels : List String) (disk : Dict String String) (dest : String)
    → normalize_all (file_paths files) ≡ ok rels
    → All (λ r. contains r scope ≡ true) rels
    → contains dest (map resolve scope) ≡ false
    → get dest (write_files resolve root files disk).1 ≡ get dest disk
unfolding write_files normalize_all file_paths
write_files-scope resolve root [] scope rels disk dest n inside out = refl
write_files-scope resolve root (f ∷ fs) scope [] disk dest n inside out =
    elim (Result-cases (normalize_generated_path f.path)) [
      | inl (e, refused) ↦ absurd (ground (arith, refused))
      | inr (rel, normal) ↦ elim (Result-cases (normalize_all (file_paths fs))) [
        | inl (e, refused) ↦ absurd (ground (arith, normal, refused))
        | inr (rest, later) ↦ absurd (ground (arith, normal, later))
      ]
    ]
write_files-scope resolve root (f ∷ fs) scope (r ∷ rs) disk dest n (here, inside) out =
    elim (Result-cases (normalize_generated_path f.path)) [
      | inl (e, refused) ↦ absurd (ground (arith, refused))
      | inr (rel, normal) ↦ elim (Result-cases (normalize_all (file_paths fs))) [
        | inl (e, refused) ↦ absurd (ground (arith, normal, refused))
        | inr (rest, later) ↦
            let first : rel ≡ r = ground (arith, normal, later) in
            let others : rest ≡ rs = ground (arith, normal, later) in
            let next = put (resolve rel) f.content disk in
            let tail =
              write_files-scope resolve root fs scope rs next dest (later ∙ ap ok others) inside
                out in
            let place : contains (resolve rel) (map resolve scope) ≡ true =
              contains-map resolve rel scope (rw first here) in
            let elsewhere : (resolve rel == dest) ≡ false =
              elim (Bool-cases (resolve rel == dest)) [
                | inl same ↦
                    let at_dest =
                      ap (λ d. contains d (map resolve scope))
                        ((string_eq.beq_iff (resolve rel) dest).0 same) in
                    absurd (ground (arith, place, at_dest, out))
                | inr other ↦ other
              ] in
            ground (arith, normal, tail, elsewhere, get-put (resolve rel) dest f.content disk)
      ]
    ]

-- Where a scope of accepted paths is given and a patch passes it, writing the files of the patch,
-- also where a file is refused on the way, changes no place but those of the scope's normal forms.
pub enforce_patch_scope-write_files :
    (resolve : String → String) (root : String) (files : List GeneratedFile)
    (allowed_paths scope : List String) (disk : Dict String String) (dest : String)
    → is_empty allowed_paths ≡ false
    → normalize_all allowed_paths ≡ ok scope
    → enforce_patch_scope files allowed_paths ≡ ok tt
    → contains dest (map resolve scope) ≡ false
    → get dest (write_files resolve root files disk).1 ≡ get dest disk
unfolding enforce_patch_scope
enforce_patch_scope-write_files resolve root files allowed_paths scope disk dest some_paths n h
      out =
    elim (Result-cases (normalize_all (file_paths files))) [
      | inl (e, refused) ↦ absurd (ground (arith, refused))
      | inr (rels, normal) ↦ elim (Result-cases (outside scope (file_paths files))) [
        | inl (e, refused) ↦ absurd (ground (arith, normal, refused, n))
        | inr (offenders, found) ↦ elim (Bool-cases (is_empty offenders)) [
          | inl none_found ↦
              let nothing : offenders ≡ [] = ground arith in
              let (rels, all_normal, inside) =
                outside-none scope (file_paths files) (rw nothing at found) in
              write_files-scope resolve root files scope rels disk dest all_normal inside out
          | inr some_found ↦ absurd (ground (arith, normal, found, n, some_found))
        ]
      ]
    ]

-- A patch of one file passes a scope that begins with its path.
pub enforce_patch_scope-one :
    (f : GeneratedFile) (allowed scope : List String)
    → normalize_all (f.path ∷ allowed) ≡ ok scope
    → enforce_patch_scope (f ∷ []) (f.path ∷ allowed) ≡ ok tt
unfolding enforce_patch_scope normalize_all outside file_paths
enforce_patch_scope-one f allowed scope normal =
    elim (Result-cases (normalize_generated_path f.path)) [
      | inl (e, refused) ↦ absurd (ground (arith, refused))
      | inr (rel, fine) ↦ elim (Result-cases (normalize_all allowed)) [
        | inl (e, refused) ↦ absurd (ground (arith, fine, refused))
        | inr (rest, later) ↦ ground (arith, fine, later, beq_refl rel)
      ]
    ]
