-- ===== src/Validate/Services.antt =====
-- internal/config/validate.go: the first pass of ValidateWithWarnings, over each service and route.
use otel_ecom_load_genrator.Prelude.{ℕ, suc, Bool, true, false, not, List, [], ◌∷◌}
use otel_ecom_load_genrator.Prelude.Text.{Text, bytes, text_eq, contains}
use otel_ecom_load_genrator.Prelude.Float64.{Float64}
use otel_ecom_load_genrator.Config.{BusinessMetric, Route, Service}
use otel_ecom_load_genrator.Validate.Verdict.{
  Place, at_service, at_route, empty_service_name, duplicate_service, no_instances, empty_instance,
  no_routes, empty_route, duplicate_route, invalid_span_kind, Report, pass, require, ◌>>◌,
}
use otel_ecom_load_genrator.Validate.Parts.{
  validate_weighted, validate_latency, validate_business_metric,
}

-- The map `validSpanKinds`.
abbrev pub valid_span_kinds : List Text
valid_span_kinds =
    bytes ""
    ∷ bytes "internal"
    ∷ bytes "server"
    ∷ bytes "client"
    ∷ bytes "producer"
    ∷ bytes "consumer"
    ∷ []

abbrev pub is_nil : {A : Type 0} → List A → Bool
is_nil [] = true
is_nil (_ ∷ _) = false

unfoldable pub check_instances : Text → ℕ → List Text → Report
check_instances name j [] = pass
check_instances name j (inst ∷ rest) =
    require (not (text_eq inst [])) (empty_instance name j) >> check_instances name (suc j) rest

module _ {F : Type 0} ⦃fl : Float64 F⦄ where
  unfoldable pub check_metrics : Place → ℕ → List (BusinessMetric F) → Report
  unfolding validate_business_metric
  check_metrics place k [] = pass
  check_metrics place k (m ∷ ms) =
      validate_business_metric place k m >> check_metrics place (suc k) ms

  -- The body of the loop over the routes of one service; `seen` holds the routes before it.
  unfoldable pub check_route : Text → List Text → ℕ → Route F → Report
  unfolding contains validate_latency validate_weighted check_metrics
  check_route service seen j r = do
    require (not (text_eq r.route [])) (empty_route service j)
    require (not (contains r.route seen)) (duplicate_route service r.route)
    require (contains r.span_kind valid_span_kinds) (invalid_span_kind service r.route r.span_kind)
    validate_latency (at_route service r.route) r.latency
    validate_weighted (at_route service r.route) r.attribute_sets r.event_sets
    check_metrics (at_route service r.route) 0 r.metrics.business

  unfoldable pub check_routes : Text → List Text → ℕ → List (Route F) → Report
  unfolding check_route
  check_routes service seen j [] = pass
  check_routes service seen j (r ∷ rs) =
      check_route service seen j r >> check_routes service (r.route ∷ seen) (suc j) rs

  -- The body of the loop over the services; `seen` holds the names before it.
  unfoldable pub check_service : List Text → ℕ → Service F → Report
  unfolding contains check_instances validate_weighted check_routes
  check_service seen i s = do
    require (not (text_eq s.service_name [])) (empty_service_name i)
    require (not (contains s.service_name seen)) (duplicate_service s.service_name)
    require (not (is_nil s.instances)) (no_instances s.service_name)
    check_instances s.service_name 0 s.instances
    require (not (is_nil s.routes)) (no_routes s.service_name)
    validate_weighted (at_service s.service_name) s.attribute_sets s.event_sets
    check_routes s.service_name [] 0 s.routes

  unfoldable pub check_services : List Text → ℕ → List (Service F) → Report
  unfolding check_service
  check_services seen i [] = pass
  check_services seen i (s ∷ ss) =
      check_service seen i s >> check_services (s.service_name ∷ seen) (suc i) ss
