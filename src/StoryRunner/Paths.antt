-- ===== src/StoryRunner/Paths.antt =====
-- The files that the runner writes (`_write_files`, `_normalize_generated_path` and
-- `_enforce_patch_scope` of src/cobol_modernizer/codegen/story_runner.py), with Python's
-- PurePosixPath. The file system's `Path.resolve` of a path in the module is an argument.
mod Safe
pub mod Scope
use Prim.Native.Char.{Char, code}
use Prim.Native.String as Text
use cobol_java_migrator_v.Prelude.{
  ℕ, ◌/◌, String, Bool, true, false, not, ◌&&◌, ◌||◌, List, [], ◌∷◌, map, leb, eqb, if◌then◌else◌,
  Result, ok, err, ◌>>=◌, ◌>>◌, ◌==◌, nat_eq, string_eq, pair_eq, option_eq, is_empty, keep_if, any,
  contains, sorted, to_set,
}
use cobol_java_migrator_v.Prelude.Dict.{Dict, put}
use cobol_java_migrator_v.Codegen.RepairLoop.{GeneratedFile}

abbrev pub is_char : ℕ → Char → Bool
is_char n c = eqb (code c) n

-- path.replace("\\", "/")
unfoldable pub forward_slashes : String → String
forward_slashes Text.[] = Text.[]
forward_slashes (Text.◌∷◌ c s) = Text.◌∷◌ (if is_char 92 c then "/" else c) (forward_slashes s)

-- str.isspace of a character, as str.strip tests it.
unfoldable pub is_space : ℕ → Bool
is_space n =
    (leb 9 n && leb n 13)
    || (leb 28 n && leb n 32)
    || contains n (133 ∷ 160 ∷ 5760 ∷ 8232 ∷ 8233 ∷ 8239 ∷ 8287 ∷ 12288 ∷ [])
    || (leb 8192 n && leb n 8202)

unfoldable pub lstrip : String → String
lstrip Text.[] = Text.[]
lstrip (Text.◌∷◌ c s) = let rest = lstrip s in if is_space (code c) then rest else Text.◌∷◌ c s

unfoldable pub rstrip : String → String
rstrip Text.[] = Text.[]
rstrip (Text.◌∷◌ c s) =
    let rest = rstrip s in if is_space (code c) && rest == "" then Text.[] else Text.◌∷◌ c rest

unfoldable pub strip : String → String
strip s = lstrip (rstrip s)

-- s.split("/")
unfoldable pub on_first : Char → List String → List String
on_first c [] = Text.◌∷◌ c Text.[] ∷ []
on_first c (p ∷ ps) = Text.◌∷◌ c p ∷ ps

unfoldable pub split : String → List String
split Text.[] = "" ∷ []
split (Text.◌∷◌ c s) = let rest = split s in if is_char 47 c then "" ∷ rest else on_first c rest

unfoldable pub has_char : ℕ → String → Bool
has_char n Text.[] = false
has_char n (Text.◌∷◌ c s) = is_char n c || has_char n s

-- PurePosixPath(s): its parts but for the root, and whether it has a root. Empty and single-dot
-- parts are dropped.
unfoldable pub parts : String → List String
parts s = keep_if (λ p. not (p == "" || p == ".")) (split s)

unfoldable pub is_absolute : String → Bool
is_absolute Text.[] = false
is_absolute (Text.◌∷◌ c s) = is_char 47 c

unfoldable pub append_text : String → String → String
append_text Text.[] t = t
append_text (Text.◌∷◌ c s) t = Text.◌∷◌ c (append_text s t)

-- "/".join(ps), which is str(p) where p has parts and no root.
unfoldable pub join : List String → String
join [] = ""
join (p ∷ []) = p
join (p ∷ q ∷ ps) = append_text p (append_text "/" (join (q ∷ ps)))

-- ValueError for an unsafe path, for one out of the module and for one out of scope, and the
-- IndexError of `p.parts[0]` where the path has no part.
pub data PathError : Type 0 where
  unsafe_path : String → PathError
  escapes_module : String → PathError
  out_of_scope : List String → PathError
  no_parts : PathError

unfoldable pub is_unsafe_part : String → Bool
is_unsafe_part p = p == "" || p == "." || p == ".."

unfoldable pub check_first : String → List String → Result PathError String
check_first path [] = err no_parts
check_first path (p ∷ ps) = if has_char 58 p then err (unsafe_path path) else ok (join (p ∷ ps))

unfoldable pub normalize_generated_path : String → Result PathError String
normalize_generated_path path =
    let clean = strip (forward_slashes path) in
    if clean == "" || is_absolute clean || any is_unsafe_part (parts clean)
    then err (unsafe_path path)
    else check_first path (parts clean)

-- dest.is_relative_to(root) of two resolved paths, part by part.
unfoldable pub is_prefix : List String → List String → Bool
is_prefix [] ys = true
is_prefix (x ∷ xs) [] = false
is_prefix (x ∷ xs) (y ∷ ys) = x == y && is_prefix xs ys

unfoldable pub is_relative_to : String → String → Bool
is_relative_to dest root = is_prefix (parts root) (parts dest)

module _ (resolve : String → String) (root : String) where
  -- The files of the disk by their resolved paths, also where a later file raises.
  unfoldable pub write_files :
      List GeneratedFile → Dict String String → Result PathError (List String) × Dict String String
  write_files [] disk = (ok [], disk)
  write_files (f ∷ fs) disk = elim (normalize_generated_path f.path) [
    | err e ↦ (err e, disk)
    | ok rel ↦
        let rest = write_files fs (put (resolve rel) f.content disk) in
        if is_relative_to (resolve rel) root
        then (rest.0 >>= λ written. ok (rel ∷ written), rest.1)
        else (err (escapes_module f.path), disk)
  ]

unfoldable pub normalize_all : List String → Result PathError (List String)
normalize_all [] = ok []
normalize_all (p ∷ ps) =
    normalize_generated_path p >>= λ rel. normalize_all ps >>= λ rels. ok (rel ∷ rels)

-- {f.path for f in files if _normalize_generated_path(f.path) not in allowed}
unfoldable pub outside : List String → List String → Result PathError (List String)
outside scope [] = ok []
outside scope (p ∷ ps) = normalize_generated_path p >>= λ rel.
    outside scope ps >>= λ offenders. ok (if contains rel scope then offenders else p ∷ offenders)

unfoldable pub file_paths : List GeneratedFile → List String
file_paths = map (λ f. f.path)

unfoldable pub enforce_patch_scope : List GeneratedFile → List String → Result PathError (Unit {0})
enforce_patch_scope files allowed_paths = normalize_all (file_paths files) >>= λ rels.
    if is_empty allowed_paths
    then ok tt
    else (normalize_all allowed_paths >>= λ allowed.
        outside allowed (file_paths files) >>= λ offenders.
        if is_empty offenders then ok tt else err (out_of_scope (sorted (to_set offenders))))
