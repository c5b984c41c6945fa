-- ===== src/Deploy/Evidence.antt =====
-- deploy/models.py, smoke.py and perf_baseline.py: what a canary is judged by. Times are whole
-- microseconds and ratios ten-thousandths, in place of floats.
pub mod Percentile
use cobol_java_migrator_v.Prelude.{
  ℕ, ◌+◌, ◌*◌, ◌/◌, ◌%◌, String, Bool, true, false, ◌&&◌, Option, none, some, List, [], ◌∷◌, ◌++◌,
  if◌then◌else◌, length, get_or, min, ltb, leb, eqb, sorted_by,
}
use cobol_java_migrator_v.Prelude.Int.{ℤ, pos, pos_part, leb_ℤ}

pub record SmokeResult : Type 0 where
  pub slice_name : String
  pub health_ok : Bool
  pub endpoints_ok : ℕ
  pub endpoints_total : ℕ
  pub failures : List String

pub SmokeResult_passed : SmokeResult → Bool
SmokeResult_passed s = s.health_ok && eqb s.endpoints_ok s.endpoints_total

pub record Probe : Type 0 where
  pub path : String
  pub expect : ℕ
  pub is_health : Bool

unprobed : List Probe → String → SmokeResult
unprobed probes slice_name = record {
  slice_name = slice_name;
  health_ok = true;
  endpoints_ok = 0;
  endpoints_total = length probes;
  failures = [];
}

-- The container answers a path with a status code and the text that reports a failure.
module _ (status_of : String → ℕ) (describe : Probe → ℕ → String) where
  probe : Probe → SmokeResult → SmokeResult
  probe p s =
      if eqb (status_of p.path) p.expect
      then record s { endpoints_ok = s.endpoints_ok + 1 }
      else record s {
        failures = s.failures ++ describe p (status_of p.path) ∷ [];
        health_ok = if p.is_health then false else s.health_ok;
      }

  probe_all : List Probe → SmokeResult → SmokeResult
  probe_all [] s = s
  probe_all (p ∷ ps) s = probe_all ps (probe p s)

  pub run_smoke : List Probe → String → SmokeResult
  run_smoke probes slice_name = probe_all probes (unprobed probes slice_name)

-- round() of a quotient: to the nearest, a tie to the even neighbour.
pub round_half_even : ℕ → ℕ → ℕ
round_half_even a b =
    if ltb (2 * (a % b)) b
    then a / b
    else if ltb b (2 * (a % b))
    then a / b + 1
    else if eqb (a / b % 2) 0
    then a / b
    else a / b + 1

pub record PerfBaseline : Type 0 where
  pub slice_name : String
  pub cobol_p95 : ℤ
  pub canary_p95 : ℕ
  pub fixtures : ℕ

-- `none` is infinity.
unfoldable pub p95_ratio : PerfBaseline → Option ℕ
p95_ratio b =
    if leb_ℤ b.cobol_p95 (pos 0)
    then none
    else some (round_half_even (b.canary_p95 * 10000) (pos_part b.cobol_p95))

abbrev ratio_at_most : Option ℕ → ℕ → Bool
ratio_at_most none m = false
ratio_at_most (some r) m = leb r m

unfoldable pub meets : ℕ → PerfBaseline → Bool
meets max_p95_ratio b = ratio_at_most (p95_ratio b) max_p95_ratio

-- values[min(len - 1, round(pct / 100 * (len - 1)))] of the sorted values, 0 for none.
pub percentile : List ℕ → ℕ → ℕ
percentile [] pct = 0
percentile (v ∷ vs) pct =
    get_or (sorted_by leb (v ∷ vs)) (min (length vs) (round_half_even (pct * length vs) 100)) 0

-- A fixture, and the canary as a function from its request to the answer and the time it took.
record Fixture (Request Response : Type 0) : Type 0 where
  pub request : Request
  pub expected : Response

module _ {Request Response : Type 0} (same : Response → Response → Bool)
    (invoke : Request → Response × ℕ) where
  unfoldable replay : List (Fixture Request Response) → List ℕ × ℕ → List ℕ × ℕ
  replay [] (latencies, divergences) = (latencies, divergences)
  replay (fx ∷ fixtures) (latencies, divergences) =
      let (body, elapsed) = invoke fx.request in
      replay fixtures (
        latencies ++ elapsed ∷ [],
        (if same body fx.expected then divergences else divergences + 1),
      )

  unfoldable run_perf_baseline : String → List (Fixture Request Response) → ℤ → PerfBaseline × ℕ
  run_perf_baseline slice_name fixtures cobol_p95 =
      let (latencies, divergences) = replay fixtures ([], 0) in
      (
        record {
          slice_name = slice_name;
          cobol_p95 = cobol_p95;
          canary_p95 = percentile latencies 95;
          fixtures = length fixtures;
        },
        divergences,
      )

record RolloutPlan : Type 0 where
  pub canary_pct : ℕ
  pub legacy_pct : ℕ

-- The model's validators; a value that breaks one is refused.
unfoldable rollout_plan : ℕ → ℕ → Option RolloutPlan
rollout_plan canary_pct legacy_pct =
    if leb canary_pct 100 && leb legacy_pct 100 && eqb (canary_pct + legacy_pct) 100
    then some (record { canary_pct = canary_pct; legacy_pct = legacy_pct })
    else none
