-- ===== src/StoryRunner/Paths/Safe/Examples.antt =====
-- Concrete inputs for the theorems of Safe.
use cobol_java_migrator_v.StoryRunner.Paths.{
  forward_slashes, is_space, lstrip, rstrip, strip, on_first, split, has_char, parts, is_absolute,
  append_text, join, unsafe_path, no_parts, is_unsafe_part, check_first, normalize_generated_path,
}
use cobol_java_migrator_v.StoryRunner.Paths.Safe.{IsSafe, normalize_generated_path-IsSafe}
use cobol_java_migrator_v.Prelude.{◌≡◌, refl, ok, err}

cleaned : normalize_generated_path " src\\main//./S.java" ≡ ok "src/main/S.java"
unfolding normalize_generated_path check_first parts split on_first strip lstrip rstrip is_space
    forward_slashes is_absolute is_unsafe_part has_char join append_text
cleaned = refl

climbing : normalize_generated_path "src/../../S.java" ≡ err (unsafe_path "src/../../S.java")
unfolding normalize_generated_path check_first parts split on_first strip lstrip rstrip is_space
    forward_slashes is_absolute is_unsafe_part has_char join append_text
climbing = refl

-- A path of dots only raises IndexError.
single_dot : normalize_generated_path "." ≡ err no_parts
unfolding normalize_generated_path check_first parts split on_first strip lstrip rstrip is_space
    forward_slashes is_absolute is_unsafe_part has_char join append_text
single_dot = refl

normalize_generated_path-IsSafe_example : IsSafe "src/main/S.java"
normalize_generated_path-IsSafe_example =
    normalize_generated_path-IsSafe " src\\main//./S.java" "src/main/S.java" cleaned
