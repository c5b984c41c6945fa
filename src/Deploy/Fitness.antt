-- ===== src/Deploy/Fitness.antt =====
-- deploy/fitness.py and the reports of deploy/models.py. Measured values and thresholds are whole
-- numbers, in place of floats.
pub mod Reports
use cobol_java_migrator_v.Prelude.{
  ℕ, ◌≡◌, refl, String, Bool, true, false, not, ◌&&◌, ◌||◌, Option, none, some, List, [], ◌∷◌,
  if◌then◌else◌, leb, Result, ok, err, map, all, keep_if, ◌>>=◌, arith, contains, ◌==◌, string_eq,
  Eq, beq_refl, Bool-cases, inl, inr,
}
use cobol_java_migrator_v.Prelude.Int.{ℤ, leb_ℤ}
use cobol_java_migrator_v.Prelude.Dict.{Dict, get, put, get-put}

-- "max" and "min".
pub data Direction : Type 0 where
  at_most at_least : Direction

pub record Target : Type 0 where
  pub key : String
  pub threshold : ℤ
  pub direction : Direction

check : Target → ℤ → Bool
check t measured = elim t.direction [
  | at_most ↦ leb_ℤ measured t.threshold
  | at_least ↦ leb_ℤ t.threshold measured
]

pub record FitnessCheckResult : Type 0 where
  pub key : String
  pub passed : Bool
  pub measured : ℤ
  pub threshold : ℤ
  pub direction : Direction

pub data FitnessError : Type 0 where
  key_error : String → FitnessError

check_result : Target → ℤ → FitnessCheckResult
unfolding check
check_result t m = record {
  key = t.key;
  passed = check t m;
  measured = m;
  threshold = t.threshold;
  direction = t.direction;
}

measure : Dict String ℤ → String → Result FitnessError ℤ
measure measured key = elim (get key measured) [ none ↦ err (key_error key) | some m ↦ ok m ]

pub run_fitness : Dict String ℤ → List Target → Result FitnessError (List FitnessCheckResult)
unfolding check_result measure
run_fitness measured [] = ok []
run_fitness measured (t ∷ ts) =
    let rest = run_fitness measured ts in
    do m ← measure measured t.key; checks ← rest; ok (check_result t m ∷ checks)

abbrev has_passed : FitnessCheckResult → Bool
has_passed c = c.passed

pub report_passed : List FitnessCheckResult → Bool
report_passed checks = all has_passed checks

by_key : List FitnessCheckResult → Dict String FitnessCheckResult → Dict String FitnessCheckResult
by_key [] d = d
by_key (c ∷ cs) d = by_key cs (put c.key c d)

-- It passed before and fails now.
regressed : Dict String FitnessCheckResult → FitnessCheckResult → Bool
regressed prior c = elim (get c.key prior) [ none ↦ false | some p ↦ p.passed && not c.passed ]

abbrev key_of : FitnessCheckResult → String
key_of c = c.key

pub regressions : List FitnessCheckResult → Option (List FitnessCheckResult) → List String
unfolding by_key regressed
regressions checks none = map key_of (keep_if (λ c. not c.passed) checks)
regressions checks (some prior) = map key_of (keep_if (regressed (by_key prior [])) checks)
