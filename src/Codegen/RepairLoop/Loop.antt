-- ===== src/Codegen/RepairLoop/Loop.antt =====
-- The outcome of the repair loop.
mod Examples
use cobol_java_migrator_v.Prelude.{
  ℕ, zero, suc, ◌+◌, ◌≤◌, ◌<◌, String, ◌≡◌, refl, ap, ◌⊎◌, inl, inr, false, not, ◌&&◌, some, List,
  [], ◌∷◌, ◌++◌, map, arith, ltb, Bool-cases, Result, ok, err, Result-cases, nat_eq, string_eq,
  pair_eq, option_eq, length, length-append,
}
use cobol_java_migrator_v.Codegen.QualityGate.{QualityReport}
use cobol_java_migrator_v.Codegen.RepairLoop.{
  GeneratedFile, GeneratedProject, RepairAttempt, CodegenResult, apply_patches, attempt_of, repair,
  run_repair_loop,
}

-- [1, ..., n]
one_to : ℕ → List ℕ
one_to zero = []
one_to (suc n) = one_to n ++ suc n ∷ []

map-append_one :
    (xs : List RepairAttempt) (a : RepairAttempt)
    → map (λ a. a.attempt) (xs ++ a ∷ []) ≡ map (λ a. a.attempt) xs ++ a.attempt ∷ []
map-append_one [] a = refl
map-append_one (x ∷ xs) a = ap (λ l. x.attempt ∷ l) (map-append_one xs a)

numbered_next :
    (xs : List RepairAttempt) (a : RepairAttempt)
    → a.attempt ≡ suc (length xs)
    → map (λ a. a.attempt) xs ≡ one_to (length xs)
    → map (λ a. a.attempt) (xs ++ a ∷ []) ≡ one_to (length (xs ++ a ∷ []))
unfolding one_to
numbered_next xs a next numbered =
    let size : length (xs ++ a ∷ []) ≡ suc (length xs) = omega (arith, length-append xs (a ∷ [])) in
    rw (map-append_one xs a, size, next, numbered) refl

module _ {E : Type 0} (verify : ℕ → GeneratedProject → QualityReport)
    (guard : ℕ → Result E (Unit {0}))
    (run_structured : ℕ → QualityReport → Result E (List GeneratedFile)) (cut : String → String)
    (max_attempts : ℕ) where
  -- What a finished loop may give: the error of the guard or of the agent at some attempt, or a
  -- result whose verdict is that of the last build, which failed only where no attempt was left.
  pub Explains : Result E CodegenResult → Type 0
  Explains (err e) =
      (n : ℕ) × (n < max_attempts)
      × ((guard n ≡ err e) ⊎ ((r : QualityReport) × (run_structured n r ≡ err e)))
  Explains (ok c) =
      (length c.attempts ≤ max_attempts)
      × (c.passed ≡ (verify (length c.attempts) c.project).passed)
      × (c.passed ≡ false → length c.attempts ≡ max_attempts)
      × (map (λ a. a.attempt) c.attempts ≡ one_to (length c.attempts))

  repair-Explains :
      (fuel : ℕ) (project : GeneratedProject) (attempts : List RepairAttempt)
      → max_attempts < fuel + length attempts
      → length attempts ≤ max_attempts
      → map (λ a. a.attempt) attempts ≡ one_to (length attempts)
      → (r : Result E CodegenResult) × (repair verify guard run_structured cut max_attempts fuel
            project attempts
          ≡ some r)
        × Explains r
  unfolding repair Explains attempt_of one_to
  repair-Explains zero project attempts room bound numbered = absurd (omega arith)
  repair-Explains (suc fuel) project attempts room bound numbered =
      let report = verify (length attempts) project in
      elim (Bool-cases (not report.passed && ltb (length attempts) max_attempts)) [
        | inl more ↦ elim (Result-cases (guard (length attempts))) [
          | inl (e, stop) ↦
              (err e, rw (repair, more, stop) refl, (length attempts, ground arith, inl stop))
          | inr (u, go) ↦ elim (Result-cases (run_structured (length attempts) report)) [
            | inl (e, fails) ↦ (
              err e,
              rw (repair, more, go, fails) refl,
              (length attempts, ground arith, inr (report, fails)),
            )
            | inr (patched, answer) ↦
                let a =
                  attempt_of verify guard run_structured cut max_attempts attempts report patched in
                let size = length-append attempts (a ∷ []) in
                let ih =
                  repair-Explains fuel (apply_patches project patched) (attempts ++ a ∷ [])
                    (omega (arith, size)) (ground (arith, size))
                    (numbered_next attempts a (omega arith) numbered) in
                (ih.0, rw (repair, more, go, answer) ih.1, ih.2)
          ]
        ]
        | inr done ↦ (
          ok (record { project = project; attempts = attempts; passed = report.passed }),
          rw (repair, done) refl,
          (bound, refl, ground arith, numbered),
        )
      ]

  -- The repair loop always ends, and its outcome is explained: at most max_attempts attempts,
  -- numbered from 1, with the verdict of the build of the returned project; it gives up on a failing
  -- project only after max_attempts attempts; and an error is the guard's or the agent's.
  run_repair_loop-Explains :
      (project : GeneratedProject)
      → (r : Result E CodegenResult) × (run_repair_loop verify guard run_structured cut max_attempts
            project
          ≡ some r)
        × Explains r
  unfolding run_repair_loop one_to
  run_repair_loop-Explains project =
      repair-Explains (suc max_attempts) project [] (omega arith) (omega arith) refl
