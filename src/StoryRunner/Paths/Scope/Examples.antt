-- ===== src/StoryRunner/Paths/Scope/Examples.antt =====
-- Concrete inputs for the theorems of Scope.
use cobol_java_migrator_v.StoryRunner.Paths.{
  forward_slashes, is_space, lstrip, rstrip, strip, on_first, split, has_char, parts, is_absolute,
  append_text, join, is_unsafe_part, check_first, normalize_generated_path, is_prefix,
  is_relative_to, write_files, normalize_all, outside, file_paths, enforce_patch_scope,
}
use cobol_java_migrator_v.StoryRunner.Paths.Scope.{enforce_patch_scope-write_files}
use cobol_java_migrator_v.Prelude.{String, ◌≡◌, refl, false, List, [], ◌∷◌, ok, contains}
use cobol_java_migrator_v.Prelude.Dict.{Dict, put, get}
use cobol_java_migrator_v.Prelude.{string_eq}
use cobol_java_migrator_v.Codegen.RepairLoop.{GeneratedFile, main_file}

abbrev patch : List GeneratedFile
patch = record { path = "src/S.java"; kind = main_file; content = "class S {}"; evidence = [] } ∷ []

abbrev in_work : String → String
in_work rel = append_text "/work/" rel

scope_of : normalize_all ("src//S.java" ∷ []) ≡ ok ("src/S.java" ∷ [])
unfolding enforce_patch_scope normalize_all outside file_paths write_files is_relative_to is_prefix
    put normalize_generated_path check_first parts split on_first strip lstrip rstrip is_space
    forward_slashes is_absolute is_unsafe_part has_char join append_text
scope_of = refl

passes : enforce_patch_scope patch ("src//S.java" ∷ []) ≡ ok tt
unfolding enforce_patch_scope normalize_all outside file_paths write_files is_relative_to is_prefix
    put normalize_generated_path check_first parts split on_first strip lstrip rstrip is_space
    forward_slashes is_absolute is_unsafe_part has_char join append_text
passes = refl

abbrev disk : Dict String String
disk = ("/work/pom.xml", "<project/>") ∷ []

elsewhere : contains {A = String} "/work/pom.xml" ("/work/src/S.java" ∷ []) ≡ false
elsewhere = refl

enforce_patch_scope-write_files_example :
    get "/work/pom.xml" (write_files in_work "/work" patch disk).1 ≡ get "/work/pom.xml" disk
unfolding append_text
enforce_patch_scope-write_files_example =
    enforce_patch_scope-write_files in_work "/work" patch ("src//S.java" ∷ []) ("src/S.java" ∷ [])
      disk "/work/pom.xml" refl scope_of passes elsewhere
