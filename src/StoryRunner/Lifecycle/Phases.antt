-- ===== src/StoryRunner/Lifecycle/Phases.antt =====
-- What the phases of a story may do: they leave the rest of the disk alone.
use cobol_java_migrator_v.Prelude.{
  ℕ, zero, suc, String, ◌≡◌, refl, ◌∙◌, inl, inr, false, not, ◌&&◌, List, ◌++◌, arith, Bool-cases,
  Result, ok, Result-cases, nat_eq, string_eq, pair_eq, option_eq,
}
use cobol_java_migrator_v.Prelude.Dict.{get}
use cobol_java_migrator_v.Prelude.Int.{pos_part}
use cobol_java_migrator_v.Codegen.Budget.{exceeded}
use cobol_java_migrator_v.Codegen.RepairLoop.{GeneratedFile}
use cobol_java_migrator_v.Codegen.StoryPlan.{StoryItem}
use cobol_java_migrator_v.StoryRunner.Paths.{is_relative_to}
use cobol_java_migrator_v.StoryRunner.Paths.Scope.{write_files-root}
use cobol_java_migrator_v.StoryRunner.Lifecycle.{
  write, scoped, tests_patch, tests_phase, allowed_impl_paths, first_patch, implement_from,
  implement, repair, build_story, baseline,
}
use cobol_java_migrator_v.StoryRunner.Environment.{
  Disk, StoryEnv, Run, ◌>>>◌, pure_result, Attempt, is_repairable,
}

bind-ok :
    {E A B : Type 0} (m : Run E A) (f : A → Run E B) (disk : Disk) (b : B)
    → ((m >>> f) disk).0 ≡ ok b
    → (a : A) × ((m disk).0 ≡ ok a) × ((f a (m disk).1).0 ≡ ok b)
unfolding ◌>>>◌
bind-ok m f disk b h = elim (Result-cases (m disk).0) [
  | inl (e, raised) ↦ absurd (ground (arith, raised))
  | inr (a, returned) ↦ (a, returned, ground (arith, returned))
]

-- A run that leaves one place of the disk alone.
unfoldable pub Keeps : {E A : Type 0} → String → Run E A → Type 0
Keeps dest m = (disk : Disk) → get dest (m disk).1 ≡ get dest disk

module _ {E : Type 0} (dest : String) where
  bind-Keeps :
      {A B : Type 0} (m : Run E A) (f : A → Run E B)
      → Keeps dest m
      → ((a : A) → Keeps dest (f a))
      → Keeps dest (m >>> f)
  unfolding ◌>>>◌ Keeps
  bind-Keeps m f hm hf disk = elim (Result-cases (m disk).0) [
    | inl (e, raised) ↦ rw (raised, ◌>>>◌) (hm disk)
    | inr (a, returned) ↦ rw (returned, ◌>>>◌) (hf a (m disk).1 ∙ hm disk)
  ]

  pure_result-Keeps : {A : Type 0} (r : Result E A) → Keeps dest (pure_result r)
  unfolding pure_result Keeps
  pure_result-Keeps r disk = refl

-- A place outside of the module's root that the test runs leave alone.
module _ {E : Type 0} (env : StoryEnv E) (item : StoryItem) (dest : String)
    (out : is_relative_to dest env.root ≡ false)
    (maven : (n : ℕ) → Keeps dest (env.run_tests n)) where
  write-Keeps : (files : List GeneratedFile) → Keeps dest (write env item files)
  unfolding write Keeps
  write-Keeps files disk = write_files-root env.resolve env.root files disk dest out

  tests_phase-Keeps : Keeps dest (tests_phase env item)
  unfolding tests_phase
  tests_phase-Keeps = bind-Keeps dest _ _ (pure_result-Keeps dest (env.enter "tests" 0)) (λ entered.
      bind-Keeps dest _ _ (write-Keeps (baseline env item)) (λ written.
        bind-Keeps dest _ _ (pure_result-Keeps dest (tests_patch env item)) (λ files.
          bind-Keeps dest _ _ (write-Keeps (baseline env item ++ files))
            (λ all_written. pure_result-Keeps dest (ok (baseline env item ++ files))))))

  implement_from-Keeps :
      (patch : List GeneratedFile → List String → Result E (List GeneratedFile)) (n : ℕ)
      → Keeps dest (implement_from env item patch n)
  unfolding implement_from Keeps
  implement_from-Keeps patch n disk =
      let existing = env.existing_java disk in
      bind-Keeps dest _ _
        (pure_result-Keeps dest (patch existing (allowed_impl_paths env item existing)))
        (λ files. bind-Keeps dest _ _ (write-Keeps files) (λ changed.
          bind-Keeps dest _ _ (pure_result-Keeps dest (env.enter "green-test" n)) (λ testing.
            bind-Keeps dest _ _ (maven n) (λ result. pure_result-Keeps dest (
              ok (record {
                impl_files = files;
                changed = changed;
                attempts = n;
                result = result;
              }))))))
        disk

  implement-Keeps :
      (patch : List GeneratedFile → List String → Result E (List GeneratedFile)) (n : ℕ)
      → Keeps dest (implement env item patch n)
  unfolding implement
  implement-Keeps patch n =
      bind-Keeps dest _ _ (pure_result-Keeps dest (env.enter "implementation" n))
        (λ entered. implement_from-Keeps patch n)

  repair-Keeps : (left : ℕ) (a : Attempt) → Keeps dest (repair env item left a)
  unfolding repair
  repair-Keeps zero a = pure_result-Keeps dest (ok a)
  repair-Keeps (suc left) a =
      let used = env.telemetry a.attempts in
      let patch = λ (existing : List GeneratedFile) (allowed : List String).
        scoped env item allowed (env.gen_impl a.attempts) in
      elim (Bool-cases
        (is_repairable a.result && env.llm_impl && not (exceeded env.budget used.0 used.1))) [
          | inl again ↦
              rw again
                (bind-Keeps dest _ _ (implement-Keeps patch (suc a.attempts)) (repair-Keeps left))
          | inr stops ↦ rw stops (pure_result-Keeps dest (ok a))
        ]

  pub build_story-Keeps : Keeps dest (build_story env item)
  unfolding build_story
  build_story-Keeps = bind-Keeps dest _ _ tests_phase-Keeps (λ test_files.
      bind-Keeps dest _ _ (pure_result-Keeps dest (env.enter "red-test" 0)) (λ entered.
        bind-Keeps dest _ _ (maven 0) (λ red.
          bind-Keeps dest _ _ (implement-Keeps (first_patch env item) 1) (λ a.
            bind-Keeps dest _ _ (repair-Keeps (pos_part env.repair_max_attempts) a)
              (λ last. pure_result-Keeps dest (ok (test_files, last)))))))
