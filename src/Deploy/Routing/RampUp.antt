-- ===== src/Deploy/Routing/RampUp.antt =====
-- Which keys the canary serves as its share grows.
use cobol_java_migrator_v.Prelude.{
  ℕ, zero, suc, ◌≤◌, ◌<◌, ◌≡◌, refl, String, Bool, true, false, List, if◌then◌else◌, arith, min,
}
use native.Mathlib.Decide.{dec_lt}
use cobol_java_migrator_v.Prelude.Int.{ℤ, pos, ◌≤ℤ◌}
use cobol_java_migrator_v.Deploy.Routing.{
  RouteTarget, legacy, canary, RoutingController, serve, bucket_of, route,
}

serve_mono : (p q : ℤ) (b : ℕ) → p ≤ℤ q → serve p b ≡ canary → serve q b ≡ canary
unfolding serve
serve_mono p q b h e = ground arith

-- A key that the canary serves at one percentage stays with the canary at every higher one of the
-- same slice, whatever the digest: raising the share moves no key back.
route-ramp_up :
    (sha256 : String → List ℕ) (c d : RoutingController) (key : String)
    → d.slice_name ≡ c.slice_name
    → c.canary_pct ≤ℤ d.canary_pct
    → route sha256 c key ≡ canary
    → route sha256 d key ≡ canary
unfolding route
route-ramp_up sha256 c d key same h e =
    rw same (serve_mono c.canary_pct d.canary_pct (bucket_of sha256 c.slice_name key) h e)

is_canary : RouteTarget → Bool
is_canary legacy = false
is_canary canary = true

-- How many of the buckets below `n` go to the canary.
canary_buckets : ℤ → ℕ → ℕ
canary_buckets p zero = 0
canary_buckets p (suc n) =
    if is_canary (serve p n) then suc (canary_buckets p n) else canary_buckets p n

canary_buckets-min : (p n : ℕ) → p < 100 → canary_buckets (pos p) n ≡ min p n
unfolding canary_buckets is_canary serve
canary_buckets-min p zero h = omega arith
canary_buckets-min p (suc n) h = ground (arith, canary_buckets-min p n h)

canary_buckets_full : (n : ℕ) → canary_buckets (pos 100) n ≡ n
unfolding canary_buckets is_canary serve
canary_buckets_full zero = refl
canary_buckets_full (suc n) = ground (arith, canary_buckets_full n)

-- At a percentage from 0 to 100, exactly that many of the hundred buckets go to the canary.
canary_share : (p : ℕ) → p ≤ 100 → canary_buckets (pos p) 100 ≡ p
canary_share p h = elim (dec_lt p 100) [
  | yes below ↦ omega (arith, canary_buckets-min p 100 below)
  | no full ↦ let e : p ≡ 100 = omega arith in rw e (canary_buckets_full 100)
]
