-- ===== src/Deploy/Routing.antt =====
-- deploy/routing.py and deploy/stoppable.py. A percentage is any integer, as in the constructor;
-- the digest of a text is a parameter.
pub mod RampUp
pub mod Gating
use Prim.Native.String.{◌++◌ as text_append}
use cobol_java_migrator_v.Prelude.{
  ℕ, ◌+◌, ◌*◌, ◌%◌, String, Bool, not, ◌&&◌, List, [], ◌∷◌, if◌then◌else◌, take, Result, ok, err,
}
use cobol_java_migrator_v.Prelude.Int.{ℤ, pos, ◌-ℤ◌, leb_ℤ, ltb_ℤ}

pub data RouteTarget : Type 0 where
  legacy canary : RouteTarget

pub data RoutingError : Type 0 where
  value_error gate_not_passed : RoutingError

pub record RoutingController : Type 0 where
  pub slice_name : String
  pub canary_pct : ℤ

unfoldable pub legacy_pct : RoutingController → ℤ
legacy_pct c = pos 100 -ℤ c.canary_pct

unfoldable pub flip : ℤ → Bool → RoutingController → Result RoutingError RoutingController
flip canary_pct deploy_gate_passed c =
    if not (leb_ℤ (pos 0) canary_pct && leb_ℤ canary_pct (pos 100))
    then err value_error
    else if ltb_ℤ c.canary_pct canary_pct && not deploy_gate_passed
    then err gate_not_passed
    else ok (record c { canary_pct = canary_pct })

-- The reason is only for the caller's records.
unfoldable pub reset_to_legacy : RoutingController → RoutingController
reset_to_legacy c = record c { canary_pct = pos 0 }

-- int.from_bytes(bytes, "big")
pub from_bytes : ℕ → List ℕ → ℕ
from_bytes acc [] = acc
from_bytes acc (b ∷ bs) = from_bytes (acc * 256 + b) bs

-- The side that serves a bucket of 0 to 99.
pub serve : ℤ → ℕ → RouteTarget
serve canary_pct bucket =
    if leb_ℤ canary_pct (pos 0)
    then legacy
    else if leb_ℤ (pos 100) canary_pct
    then canary
    else if ltb_ℤ (pos bucket) canary_pct
    then canary
    else legacy

module _ (sha256 : String → List ℕ) where
  unfoldable pub bucket_of : String → String → ℕ
  bucket_of slice_name key =
      from_bytes 0 (take 4 (sha256 (text_append slice_name (text_append ":" key)))) % 100

  pub route : RoutingController → String → RouteTarget
  route c key = serve c.canary_pct (bucket_of c.slice_name key)

pub record RouteSnapshot : Type 0 where
  pub canary_pct : ℤ
  pub legacy_path_available : Bool
  pub deploy_gate_passed : Bool

pub data StoppableError : Type 0 where
  ungated_traffic no_rollback_target : StoppableError

unfoldable pub assert_stoppable_safe : RouteSnapshot → Result StoppableError (Unit {0})
assert_stoppable_safe snap =
    if leb_ℤ snap.canary_pct (pos 0) && leb_ℤ (pos 0) snap.canary_pct
    then ok tt
    else if not snap.deploy_gate_passed
    then err ungated_traffic
    else if not snap.legacy_path_available
    then err no_rollback_target
    else ok tt
