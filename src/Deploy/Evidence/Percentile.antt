-- ===== src/Deploy/Evidence/Percentile.antt =====
-- The latency that perf_baseline.py reports, and the probes that smoke.py counts.
use cobol_java_migrator_v.Prelude.{
  ℕ, zero, suc, ◌+◌, ◌≤◌, ◌<◌, ◌≡◌, refl, sym, ◌*◌, String, Bool, true, List, [], ◌∷◌,
  if◌then◌else◌, arith, min, length, get_or, leb, eqb, sorted_by, length-sorted_by, contains,
  contains-sorted_by, nat_eq, beq_refl, all, ◌∙◌,
}
use cobol_java_migrator_v.Deploy.Evidence.{
  percentile, round_half_even, SmokeResult, SmokeResult_passed, Probe, probe, probe_all, unprobed,
  run_smoke,
}

contains-get_or : (xs : List ℕ) (i d : ℕ) → i < length xs → contains (get_or xs i d) xs ≡ true
contains-get_or [] i d h = elim h [ ]
contains-get_or (x ∷ xs) zero d h = ground (arith, beq_refl x)
contains-get_or (x ∷ xs) (suc i) d h = ground (arith, contains-get_or xs i d)

-- The reported percentile of a non-empty list is one of its values, whatever the percentage.
percentile_measured :
    (v : ℕ) (vs : List ℕ) (pct : ℕ) → contains (percentile (v ∷ vs) pct) (v ∷ vs) ≡ true
unfolding percentile
percentile_measured v vs pct =
    let i = min (length vs) (round_half_even (pct * length vs) 100) in
    sym (contains-sorted_by leb (get_or (sorted_by leb (v ∷ vs)) i 0) (v ∷ vs))
    ∙ contains-get_or (sorted_by leb (v ∷ vs)) i 0 (omega (arith, length-sorted_by leb (v ∷ vs)))

abbrev answers : (String → ℕ) → Probe → Bool
answers status_of p = eqb (status_of p.path) p.expect

module _ (status_of : String → ℕ) (describe : Probe → ℕ → String) where
  answered : List Probe → ℕ
  answered [] = 0
  answered (p ∷ ps) = if answers status_of p then suc (answered ps) else answered ps

  answered-le : (ps : List Probe) → answered ps ≤ length ps
  unfolding answered
  answered-le [] = omega arith
  answered-le (p ∷ ps) = ground (arith, answered-le ps)

  all-answered : (ps : List Probe) → all (answers status_of) ps ≡ eqb (answered ps) (length ps)
  unfolding answered
  all-answered [] = refl
  all-answered (p ∷ ps) = ground (arith, all-answered ps, answered-le ps)

  record Probed (s s' : SmokeResult) (ps : List Probe) : Type 0 where
    counted : s'.endpoints_ok ≡ s.endpoints_ok + answered ps
    total : s'.endpoints_total ≡ s.endpoints_total
    health : all (answers status_of) ps ≡ true → s'.health_ok ≡ s.health_ok

  probe_all-Probed :
      (ps : List Probe) (s : SmokeResult) → Probed s (probe_all status_of describe ps s) ps
  unfolding probe_all probe answered
  probe_all-Probed [] s = record { counted = omega arith; total = refl; health = λ h. refl }
  probe_all-Probed (p ∷ ps) s =
      let rest = probe_all-Probed ps (probe status_of describe p s) in
      record {
        counted = ground (arith, rest.counted);
        total = ground (arith, rest.total);
        health = λ h. ground (arith, rest.health);
      }

-- The smoke run passes exactly where every probe gets the status that it expects.
smoke_passes :
    (status_of : String → ℕ) (describe : Probe → ℕ → String) (probes : List Probe)
    (slice_name : String)
    → SmokeResult_passed (run_smoke status_of describe probes slice_name)
      ≡ all (answers status_of) probes
unfolding run_smoke unprobed SmokeResult_passed answered
smoke_passes status_of describe probes slice_name =
    let done = probe_all-Probed status_of describe probes (unprobed probes slice_name) in
    ground (arith, done.counted, done.total, done.health, all-answered status_of describe probes)
