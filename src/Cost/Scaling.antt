-- ===== src/Cost/Scaling.antt =====
-- cost/scaling.py and cost/tiering.py. The environment is a function from names to values.
mod Examples
use cobol_java_migrator_v.Prelude.{
  ℕ, ◌+◌, ◌/◌, ◌≤◌, ◌<◌, ◌≡◌, String, Bool, false, not, Option, none, some, List, [], ◌∷◌, arith,
  min, max, if◌then◌else◌, or_else, ◌==◌, string_eq,
}
use cobol_java_migrator_v.Prelude.Int.{ℤ, pos, negsuc, pos_part, leb_ℤ, ◌≤ℤ◌}
use native.Mathlib.Nat.{le-div_iff_mul-le}
use cobol_java_migrator_v.Prelude.Dict.{Dict, get}

abbrev Environ : Type 0
Environ = String → Option String

abbrev haiku : String
haiku = "claude-haiku-4-5-20251001"

abbrev sonnet : String
sonnet = "claude-sonnet-4-6"

abbrev opus : String
opus = "claude-opus-4-8"

abbrev tier_models : Dict String String
tier_models = ("haiku", haiku) ∷ ("sonnet", sonnet) ∷ ("opus", opus) ∷ []

abbrev global_env : String
global_env = "COBOL_MOD_LLM_MODEL"

abbrev role_env : Dict String String
role_env =
    ("enrichment", "ENRICHMENT_MODEL")
    ∷ ("ask", "ASK_MODEL")
    ∷ ("equivalence_triage", "EQUIV_TRIAGE_MODEL")
    ∷ ("brd", "BRD_AGENT_MODEL")
    ∷ ("seam", "SEAM_MODEL")
    ∷ ("story", "STORY_MODEL")
    ∷ ("codegen", "CODEGEN_MODEL")
    ∷ ("judge", "JUDGE_MODEL")
    ∷ ("design", "DESIGN_MODEL")
    ∷ ("repair", "REPAIR_MODEL")
    ∷ ("advisor", "ADVISOR_MODEL")
    ∷ []

abbrev defaults : Dict String String
defaults =
    ("enrichment", haiku)
    ∷ ("ask", haiku)
    ∷ ("equivalence_triage", haiku)
    ∷ ("brd", sonnet)
    ∷ ("seam", sonnet)
    ∷ ("story", sonnet)
    ∷ ("codegen", sonnet)
    ∷ ("judge", opus)
    ∷ ("design", opus)
    ∷ ("repair", opus)
    ∷ ("advisor", opus)
    ∷ []

-- bool(os.getenv(name)): the variable is there and not empty.
is_set : Option String → Bool
is_set none = false
is_set (some value) = not (value == "")

resolve_global : Environ → String → String
unfolding is_set
resolve_global env role =
    if is_set (env global_env)
    then or_else (env global_env) ""
    else or_else (get role defaults) sonnet

resolve_model : Environ → String → String
unfolding resolve_global is_set
resolve_model env role = elim (get role role_env) [
  | none ↦ resolve_global env role
  | some name ↦ if is_set (env name) then or_else (env name) "" else resolve_global env role
]

-- base + max(0, n_units) // max(1, per), held between lo and hi.
turns_for : ℤ → ℕ → ℕ → ℕ → ℤ → ℕ
turns_for n_units lo hi base per = max lo (min hi (base + pos_part n_units / max 1 (pos_part per)))

-- `pinned` wins where it is set; an unknown tier is a KeyError, here `none`.
unfoldable model_for_size : ℤ → ℤ → String → String → Option String → Option String
unfolding is_set
model_for_size n_units threshold small_tier large_tier pinned =
    if is_set pinned
    then pinned
    else get (if leb_ℤ n_units threshold then small_tier else large_tier) tier_models

div_mono : (k a b : ℕ) → 0 < k → a ≤ b → a / k ≤ b / k
div_mono k a b p h =
    (le-div_iff_mul-le p).1
      (omega (arith, (le-div_iff_mul-le {x = a / k} {y = a} p).0 (omega arith)))

-- The turn budget is at least `lo`, at most `hi` where `lo` ≤ `hi`, and does not fall when the work
-- grows.
turns_for_bounds :
    (n m : ℤ) (lo hi base : ℕ) (per : ℤ)
    → n ≤ℤ m
    → (lo ≤ turns_for n lo hi base per)
      × (lo ≤ hi → turns_for n lo hi base per ≤ hi)
      × (turns_for n lo hi base per ≤ turns_for m lo hi base per)
unfolding turns_for
turns_for_bounds n m lo hi base per h =
    let grows =
      div_mono (max 1 (pos_part per)) (pos_part n) (pos_part m) (omega arith) (parts n m h) in
    (omega arith, λ fits. omega arith, omega (arith, grows))
  where
    parts : (n m : ℤ) → n ≤ℤ m → pos_part n ≤ pos_part m
    parts (pos a) (pos b) h = omega arith
    parts (pos a) (negsuc b) h = omega arith
    parts (negsuc a) m h = omega arith

-- The model of a role is the first that is set and not empty of the role's own variable, the global
-- variable and the role's default.
abbrev first_set : List (Option String) → String → String
first_set [] d = d
first_set (none ∷ os) d = first_set os d
first_set (some s ∷ os) d = if s == "" then first_set os d else s

abbrev lookup_env : Environ → Option String → Option String
lookup_env env none = none
lookup_env env (some name) = env name

resolve_model-first_set :
    (env : Environ) (role : String)
    → resolve_model env role
      ≡ first_set
          (lookup_env env (get role role_env) ∷ env global_env ∷ [])
          (or_else (get role defaults) sonnet)
unfolding resolve_model
resolve_model-first_set env role = ground arith
