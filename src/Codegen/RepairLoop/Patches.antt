-- ===== src/Codegen/RepairLoop/Patches.antt =====
-- What the patches leave of a project.
use cobol_java_migrator_v.Prelude.{
  String, ◌≡◌, refl, ap, ◌∙◌, inl, inr, Option, none, some, List, [], ◌∷◌, arith, if◌then◌else◌,
  Bool-cases, Option-cases, ◌==◌, nat_eq, string_eq, pair_eq, option_eq, All,
}
use cobol_java_migrator_v.Prelude.Dict.{Dict, get, put, values, get-put}
use cobol_java_migrator_v.Codegen.RepairLoop.{
  GeneratedFile, GeneratedProject, by_path, apply_patches,
}

-- The first file of a path, and the last.
file_at : String → List GeneratedFile → Option GeneratedFile
file_at p [] = none
file_at p (f ∷ fs) = if f.path == p then some f else file_at p fs

last_at : String → List GeneratedFile → Option GeneratedFile
last_at p [] = none
last_at p (f ∷ fs) = elim (last_at p fs) [
  | none ↦ if f.path == p then some f else none
  | some g ↦ some g
]

or_other : Option GeneratedFile → Option GeneratedFile → Option GeneratedFile
or_other none o = o
or_other (some f) o = some f

or_other-none : (o : Option GeneratedFile) → or_other o none ≡ o
unfolding or_other
or_other-none none = refl
or_other-none (some f) = refl

-- Every file stands under its own path.
IsKeyed : Dict String GeneratedFile → Type 0
IsKeyed = All (λ e. e.0 ≡ e.1.path)

put-IsKeyed :
    (f : GeneratedFile) (d : Dict String GeneratedFile) → IsKeyed d → IsKeyed (put f.path f d)
unfolding put IsKeyed
put-IsKeyed f [] keyed = (refl, tt)
put-IsKeyed f ((k, g) ∷ d) (here, rest) = elim (Bool-cases (k == f.path)) [
  | inl same ↦ rw same ((string_eq.beq_iff k f.path).0 same, rest)
  | inr other ↦ rw other (here, put-IsKeyed f d rest)
]

by_path-IsKeyed :
    (fs : List GeneratedFile) (d : Dict String GeneratedFile) → IsKeyed d → IsKeyed (by_path fs d)
unfolding by_path
by_path-IsKeyed [] d keyed = keyed
by_path-IsKeyed (f ∷ fs) d keyed = by_path-IsKeyed fs (put f.path f d) (put-IsKeyed f d keyed)

file_at-values :
    (p : String) (d : Dict String GeneratedFile) → IsKeyed d → file_at p (values d) ≡ get p d
unfolding file_at get IsKeyed
file_at-values p [] keyed = refl
file_at-values p ((k, g) ∷ d) (here, rest) =
    rw here (ap (λ o. if g.path == p then some g else o) (file_at-values p d rest))

get-by_path :
    (p : String) (fs : List GeneratedFile) (d : Dict String GeneratedFile)
    → get p (by_path fs d) ≡ or_other (last_at p fs) (get p d)
unfolding by_path last_at or_other
get-by_path p [] d = refl
get-by_path p (f ∷ fs) d = elim (Option-cases (last_at p fs)) [
  | inl missing ↦ ground (arith, get-by_path p fs (put f.path f d), get-put f.path p f d)
  | inr (g, found) ↦ ground (arith, get-by_path p fs (put f.path f d))
]

-- After the patches the file of every path is the last patch of that path, or where there is none
-- the project's own file: no patch is lost and no other file is touched.
file_at-apply_patches :
    (p : String) (project : GeneratedProject) (patched : List GeneratedFile)
    → file_at p (apply_patches project patched).files
      ≡ or_other (last_at p patched) (last_at p project.files)
unfolding apply_patches IsKeyed get
file_at-apply_patches p project patched =
    let own = by_path project.files [] in
    file_at-values p (by_path patched own)
      (by_path-IsKeyed patched own (by_path-IsKeyed project.files [] tt))
    ∙ get-by_path p patched own
    ∙ ap (or_other (last_at p patched))
        (get-by_path p project.files [] ∙ or_other-none (last_at p project.files))
