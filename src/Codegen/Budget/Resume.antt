-- ===== src/Codegen/Budget/Resume.antt =====
-- When a story is skipped on resume.
mod Examples
use cobol_java_migrator_v.Prelude.{
  String, ◌≡◌, refl, sym, subst, ◌≢◌, ◌↔◌, inl, inr, true, Option, none, some, arith, Option-cases,
  nat_eq, string_eq, pair_eq, option_eq,
}
use cobol_java_migrator_v.Codegen.Budget.{
  Status, is_accepted, PriorRecord, decide_hash, decide, should_skip,
}

-- What the docstring of _decide promises: an accepted status, and a recorded hash, not empty, that
-- equals the current one.
IsUnchanged : Option PriorRecord → String → Type 0
IsUnchanged prior current =
    (r : PriorRecord) × (s : Status) × (prior ≡ some r)
    × (r.status ≡ some s)
    × (is_accepted s ≡ true)
    × (r.context_hash ≡ some current)
    × (current ≢ "")

skip→IsUnchanged :
    (r : PriorRecord) (current : String)
    → should_skip (some r) current ≡ true
    → IsUnchanged (some r) current
unfolding should_skip decide decide_hash IsUnchanged
skip→IsUnchanged r current h = elim (Option-cases r.status) [
  | inl missing ↦ absurd (ground (arith, missing))
  | inr (s, stored) ↦ elim (Option-cases r.context_hash) [
    | inl missing ↦ absurd (ground (arith, missing, stored))
    | inr (p, hash) ↦ (
      r,
      s,
      refl,
      stored,
      ground arith,
      ground (arith, string_eq.beq_iff p current),
      λ e. ground (arith, string_eq.beq_iff p current, string_eq.beq_iff p ""),
    )
  ]
]

IsUnchanged→skip :
    (prior : Option PriorRecord) (current : String)
    → IsUnchanged prior current
    → should_skip prior current ≡ true
unfolding should_skip decide decide_hash IsUnchanged
IsUnchanged→skip prior current (r, s, p, status, accepted, hash, filled) =
    rw (p, should_skip, decide, status, hash)
      (ground
        (arith, accepted, filled, string_eq.beq_iff current "", string_eq.beq_iff current current))

first_run_runs :
    (prior : Option PriorRecord) (current : String)
    → prior ≡ none
    → should_skip prior current ≢ true
unfolding should_skip decide
first_run_runs prior current missing h = ground arith

-- A story is skipped exactly when its prior record has an accepted status and a recorded hash, not
-- empty, that equals the current one; in every other case it runs again.
should_skip_iff :
    (prior : Option PriorRecord) (current : String)
    → (should_skip prior current ≡ true) ↔ IsUnchanged prior current
should_skip_iff prior current = elim (Option-cases prior) [
  | inl missing ↦
      (λ h. absurd (first_run_runs prior current missing h), IsUnchanged→skip prior current)
  | inr (r, given) ↦ (
    λ h.
        subst (λ q. IsUnchanged q current) (sym given)
          (skip→IsUnchanged r current (subst (λ q. should_skip q current ≡ true) given h)),
    IsUnchanged→skip prior current,
  )
]
