-- ===== src/StoryRunner/Paths/Safe.antt =====
-- What the normal form of a generated path is.
mod Examples
use Prim.Native.Char.{Char}
use Prim.Native.String as Text
use cobol_java_migrator_v.Prelude.{
  ◌-◌, ◌/◌, String, ◌≡◌, refl, ap, ◌∙◌, subst, inl, inr, Bool, false, not, ◌||◌, List, [], ◌∷◌,
  arith, Bool-cases, ok, ◌==◌, nat_eq, string_eq, pair_eq, option_eq, keep_if, any, All,
}
use cobol_java_migrator_v.StoryRunner.Paths.{
  is_char, forward_slashes, strip, on_first, split, has_char, parts, is_absolute, append_text, join,
  is_unsafe_part, check_first, normalize_generated_path,
}

-- The parts of a split text have no slash, and joining such parts is undone by splitting.
abbrev NoSlash : String → Type 0
NoSlash p = has_char 47 p ≡ false

on_first-NoSlash :
    (c : Char) (ps : List String)
    → is_char 47 c ≡ false
    → All NoSlash ps
    → All NoSlash (on_first c ps)
unfolding on_first has_char
on_first-NoSlash c [] h hs = (ground arith, tt)
on_first-NoSlash c (p ∷ ps) h (n, hs) = (ground arith, hs)

split-NoSlash : (s : String) → All NoSlash (split s)
unfolding split has_char
split-NoSlash Text.[] = (refl, tt)
split-NoSlash (Text.◌∷◌ c s) = elim (Bool-cases (is_char 47 c)) [
  | inl slash ↦ rw slash (refl, split-NoSlash s)
  | inr other ↦ rw other (on_first-NoSlash c (split s) other (split-NoSlash s))
]

split-one : (p : String) → NoSlash p → split p ≡ p ∷ []
unfolding split has_char on_first
split-one Text.[] h = refl
split-one (Text.◌∷◌ c s) h =
    let rest = split-one s (ground arith) in
    let other : is_char 47 c ≡ false = ground arith in rw (other, rest) refl

split-append : (p t : String) → NoSlash p → split (append_text p (append_text "/" t)) ≡ p ∷ split t
unfolding split has_char on_first append_text
split-append Text.[] t h = refl
split-append (Text.◌∷◌ c s) t h =
    let rest = split-append s t (ground arith) in
    let other : is_char 47 c ≡ false = ground arith in rw (other, rest) refl

split-join : (p : String) (ps : List String) → All NoSlash (p ∷ ps) → split (join (p ∷ ps)) ≡ p ∷ ps
unfolding join
split-join p [] (h, hs) = split-one p h
split-join p (q ∷ ps) (h, hs) =
    split-append p (join (q ∷ ps)) h ∙ ap (λ l. p ∷ l) (split-join q ps hs)

keep_if-NoSlash :
    (q : String → Bool) (ps : List String) → All NoSlash ps → All NoSlash (keep_if q ps)
keep_if-NoSlash q [] h = tt
keep_if-NoSlash q (p ∷ ps) (h, hs) = elim (Bool-cases (q p)) [
  | inl keeps ↦ rw keeps (h, keep_if-NoSlash q ps hs)
  | inr drops ↦ rw drops (keep_if-NoSlash q ps hs)
]

none_any : (q : String → Bool) (ps : List String) → any q ps ≡ false → All (λ p. q p ≡ false) ps
none_any q [] h = tt
none_any q (p ∷ ps) h = (ground arith, none_any q ps (ground arith))

relative_of_parts :
    (s : String) → All (λ p. is_unsafe_part p ≡ false) (split s) → is_absolute s ≡ false
unfolding split is_absolute is_unsafe_part
relative_of_parts Text.[] h = refl
relative_of_parts (Text.◌∷◌ c s) h = ground arith

-- A path that is accepted is written by its parts: the normal form is relative, and none of its
-- parts is empty, `.` or `..`.
pub IsSafe : String → Type 0
IsSafe rel = (is_absolute rel ≡ false) × All (λ p. is_unsafe_part p ≡ false) (split rel)

check_first-IsSafe :
    (path rel : String) (ps : List String)
    → All NoSlash ps
    → All (λ p. is_unsafe_part p ≡ false) ps
    → check_first path ps ≡ ok rel
    → IsSafe rel
unfolding check_first IsSafe
check_first-IsSafe path rel [] n safe h = absurd (ground arith)
check_first-IsSafe path rel (p ∷ ps) n safe h =
    let same : join (p ∷ ps) ≡ rel = ground arith in
    let cut = split-join p ps n in
    let each : All (λ p. is_unsafe_part p ≡ false) (split rel) =
      subst (λ r. All (λ p. is_unsafe_part p ≡ false) (split r)) same (rw cut safe) in
    (relative_of_parts rel each, each)

-- The normal form that `_normalize_generated_path` returns is a relative path of which no part is
-- empty, `.` or `..`.
pub normalize_generated_path-IsSafe :
    (path rel : String) → normalize_generated_path path ≡ ok rel → IsSafe rel
unfolding normalize_generated_path parts
normalize_generated_path-IsSafe path rel h =
    let clean = strip (forward_slashes path) in
    let all_parts = parts clean in
    elim (Bool-cases (any is_unsafe_part all_parts)) [
      | inl unsafe ↦ absurd (ground arith)
      | inr safe ↦
          check_first-IsSafe path rel all_parts
            (keep_if-NoSlash (λ p. not (p == "" || p == ".")) (split clean) (split-NoSlash clean))
            (none_any is_unsafe_part all_parts safe) (ground arith)
    ]
