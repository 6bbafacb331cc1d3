-- ===== src/Validate.antt =====
-- internal/config/validate.go: ValidateWithWarnings and Validate.
pub mod Verdict
pub mod Parts
pub mod Services
pub mod References
pub mod Cycles
pub mod Reachable
pub mod Meaning
pub mod Exact
pub mod ServicesExact
pub mod ReachEnds
pub mod Reached
pub mod ReachExact
pub mod FileExact
pub mod Load
pub mod AnyOrder
use otel_ecom_load_genrator.Prelude.{ℕ, suc, Option, none, some, List, [], ◌∷◌, not}
use otel_ecom_load_genrator.Prelude.Float64.{Float64}
use otel_ecom_load_genrator.Config.{Surge, File}
use otel_ecom_load_genrator.Validate.Verdict.{
  Error, nil_topology, no_services, no_root_routes, out_of_fuel, Warning, Report, pass, fail,
  require, ◌>>◌,
}
use otel_ecom_load_genrator.Validate.Parts.{validate_surge}
use otel_ecom_load_genrator.Validate.Services.{is_nil, check_services}
use otel_ecom_load_genrator.Validate.References.{check_references, check_roots}
use otel_ecom_load_genrator.Validate.Cycles.{detect_cycles, report_cycle}
use otel_ecom_load_genrator.Validate.Reachable.{unreachable_services}

-- `append(warnings, unreachableServices(f)...)`
unfoldable pub add_warnings : Option (List Warning) → Report
add_warnings none = fail out_of_fuel
add_warnings (some ws) = record { warnings = ws; error = none }

module _ {F : Type 0} ⦃fl : Float64 F⦄ where
  unfoldable pub check_surges : File F → ℕ → List (Surge F) → Report
  unfolding validate_surge
  check_surges f i [] = pass
  check_surges f i (s ∷ ss) = validate_surge i s f >> check_surges f (suc i) ss

  unfoldable pub validate_file : File F → Report
  unfolding check_services check_references check_roots detect_cycles report_cycle check_surges
      unreachable_services add_warnings
  validate_file f = do
    require (not (is_nil f.topology.services)) no_services
    require (not (is_nil f.root_routes)) no_root_routes
    check_services [] 0 f.topology.services
    check_references f.topology f.topology.services
    check_roots f.topology 0 f.root_routes
    report_cycle (detect_cycles f)
    check_surges f 0 f.surges
    add_warnings (unreachable_services f)

  -- The argument is a pointer, which may be nil.
  unfoldable pub validate_with_warnings : Option (File F) → Report
  unfolding validate_file
  validate_with_warnings none = fail nil_topology
  validate_with_warnings (some f) = validate_file f

  unfoldable pub validate : Option (File F) → Option Error
  unfolding validate_with_warnings
  validate f = (validate_with_warnings f).error
