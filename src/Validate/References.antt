-- ===== src/Validate/References.antt =====
-- internal/config/validate.go: the second pass of ValidateWithWarnings, and the root routes.
use otel_ecom_load_genrator.Prelude.{ℕ, suc, none, some, List, [], ◌∷◌, if◌then◌else◌}
use otel_ecom_load_genrator.Prelude.Int.{pos, leb_ℤ}
use otel_ecom_load_genrator.Prelude.Text.{Text}
use otel_ecom_load_genrator.Config.{Route, Service, Topology, RootRoute, find_service, find_route}
use otel_ecom_load_genrator.Validate.Verdict.{
  Node, unknown_downstream_service, unknown_downstream_route, unknown_root_service,
  unknown_root_route, root_rate, Report, pass, fail, ◌>>◌,
}

module _ {F : Type 0} where
  unfoldable pub check_call : Topology F → Node → Text × Text → Report
  unfolding find_service find_route
  check_call t n (service, route) = elim (find_service t service) [
    | none ↦ fail (unknown_downstream_service n service)
    | some target ↦ elim (find_route target route) [
      | none ↦ fail (unknown_downstream_route n route service)
      | some _ ↦ pass
    ]
  ]

  unfoldable pub check_calls : Topology F → Node → List (Text × Text) → Report
  unfolding check_call
  check_calls t n [] = pass
  check_calls t n (call ∷ rest) = check_call t n call >> check_calls t n rest

  unfoldable pub check_route_calls : Topology F → Text → List (Route F) → Report
  unfolding check_calls
  check_route_calls t service [] = pass
  check_route_calls t service (r ∷ rs) =
      check_calls t (record { service = service; route = r.route }) r.downstream_calls
      >> check_route_calls t service rs

  unfoldable pub check_references : Topology F → List (Service F) → Report
  unfolding check_route_calls
  check_references t [] = pass
  check_references t (s ∷ ss) = check_route_calls t s.service_name s.routes >> check_references t ss

  unfoldable pub check_root : Topology F → ℕ → RootRoute → Report
  unfolding find_service find_route
  check_root t i rr = elim (find_service t rr.service) [
    | none ↦ fail (unknown_root_service i rr.service)
    | some svc ↦ elim (find_route svc rr.route) [
      | none ↦ fail (unknown_root_route i rr.route rr.service)
      | some _ ↦ if leb_ℤ rr.traces_per_hour (pos 0) then fail (root_rate i) else pass
    ]
  ]

  unfoldable pub check_roots : Topology F → ℕ → List RootRoute → Report
  unfolding check_root
  check_roots t i [] = pass
  check_roots t i (rr ∷ rest) = check_root t i rr >> check_roots t (suc i) rest
