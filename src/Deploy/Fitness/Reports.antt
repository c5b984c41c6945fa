-- ===== src/Deploy/Fitness/Reports.antt =====
-- What a fitness report says of the measured values, and of an earlier report.
use cobol_java_migrator_v.Prelude.{
  ◌≡◌, refl, String, Bool, true, false, not, none, some, List, [], ◌∷◌, ok, map, all, keep_if,
  arith, string_eq, inl, inr, Option-cases, Result-cases, subst, is_empty, ap, ◌∙◌, sym,
}
use cobol_java_migrator_v.Prelude.Int.{ℤ, leb_ℤ}
use cobol_java_migrator_v.Prelude.Dict.{Dict, get}
use cobol_java_migrator_v.Deploy.Fitness.{
  at_most, at_least, Target, FitnessCheckResult, check, check_result, measure, run_fitness,
  report_passed, has_passed, key_of, by_key, regressed, regressions,
}

abbrev holds_at : Target → ℤ → Bool
holds_at t m = elim t.direction [ at_most ↦ leb_ℤ m t.threshold | at_least ↦ leb_ℤ t.threshold m ]

-- The key of the target is measured, on its side of the threshold.
abbrev met : Dict String ℤ → Target → Bool
met measured t = elim (get t.key measured) [ none ↦ false | some m ↦ holds_at t m ]

abbrev target_key : Target → String
target_key t = t.key

module _ (measured : Dict String ℤ) where
  abbrev Reports : List Target → List FitnessCheckResult → Type 0
  Reports ts checks =
      (all has_passed checks ≡ all (met measured) ts) × (map key_of checks ≡ map target_key ts)

  Reports-cons :
      (t : Target) (ts : List Target) (m : ℤ) (checks : List FitnessCheckResult)
      → get t.key measured ≡ some m
      → Reports ts checks
      → Reports (t ∷ ts) (check_result t m ∷ checks)
  unfolding check_result check
  Reports-cons t ts m checks e r = (ground (arith, e, r.0), ap (λ ks. t.key ∷ ks) r.1)

  run_fitness-Reports :
      (ts : List Target) (checks : List FitnessCheckResult)
      → run_fitness measured ts ≡ ok checks
      → Reports ts checks
  unfolding run_fitness measure
  run_fitness-Reports [] [] e = (refl, refl)
  run_fitness-Reports [] (c ∷ checks) e = cc
  run_fitness-Reports (t ∷ ts) checks e = elim (Option-cases (get t.key measured)) [
    | inl missing ↦ absurd (ground arith)
    | inr (m, found) ↦ elim (Result-cases (run_fitness measured ts)) [
      | inl (x, failed) ↦ absurd (ground arith)
      | inr (rest, done) ↦
          let same : check_result t m ∷ rest ≡ checks = ground arith in
          subst (Reports (t ∷ ts)) same
            (Reports-cons t ts m rest found (run_fitness-Reports ts rest done))
    ]
  ]

-- A run that returns has one check for each target, in order, and its report passes exactly where
-- every target's key is measured on its side of the threshold.
run_fitness-passed :
    (measured : Dict String ℤ) (ts : List Target) (checks : List FitnessCheckResult)
    → run_fitness measured ts ≡ ok checks
    → (report_passed checks ≡ all (met measured) ts) × (map key_of checks ≡ map target_key ts)
unfolding report_passed
run_fitness-passed = run_fitness-Reports

fails_none :
    (checks : List FitnessCheckResult)
    → all has_passed checks ≡ is_empty (keep_if (λ c. not c.passed) checks)
fails_none [] = refl
fails_none (c ∷ checks) = ground (arith, fails_none checks)

regressed_none :
    (prior : Dict String FitnessCheckResult) (checks : List FitnessCheckResult)
    → all has_passed checks ≡ true
    → keep_if (regressed prior) checks ≡ []
unfolding regressed
regressed_none prior [] h = refl
regressed_none prior (c ∷ checks) h = ground (arith, regressed_none prior checks)

is_empty-map {ℓ κ} :
    {A : Type ℓ} {B : Type κ} (f : A → B) (xs : List A) → is_empty (map f xs) ≡ is_empty xs
is_empty-map f [] = refl
is_empty-map f (x ∷ xs) = refl

-- A report passes exactly where it has no regressions against no earlier report, and then it has none
-- against any.
regressions_passed :
    (checks : List FitnessCheckResult)
    → (report_passed checks ≡ is_empty (regressions checks none))
      × ((prior : List FitnessCheckResult)
          → report_passed checks ≡ true
          → regressions checks (some prior) ≡ [])
unfolding regressions report_passed
regressions_passed checks = (
  fails_none checks ∙ sym (is_empty-map key_of (keep_if (λ c. not c.passed) checks)),
  λ prior h. ap (map key_of) (regressed_none (by_key prior []) checks h),
)
