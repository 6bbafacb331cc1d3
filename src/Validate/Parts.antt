-- ===== src/Validate/Parts.antt =====
-- internal/config/validate.go: validateWeighted, validateLatency, validateBusinessMetric and
-- validateSurge. `int` sums and products wrap at 64 bits, as in Go.
use otel_ecom_load_genrator.Prelude.{
  ℕ, suc, Bool, false, not, ◌&&◌, ◌||◌, List, [], ◌∷◌, map, if◌then◌else◌,
}
use otel_ecom_load_genrator.Prelude.Int.{ℤ, pos, ◌+ℤ◌, ◌*ℤ◌, ltb_ℤ, leb_ℤ, eqb_ℤ}
use otel_ecom_load_genrator.Prelude.Text.{Text, bytes, text_eq}
use otel_ecom_load_genrator.Prelude.Float64.{Float64}
use otel_ecom_load_genrator.Config.{
  AttributeSet, EventSet, Latency, BusinessMetric, RootRoute, Surge, File,
}
use otel_ecom_load_genrator.Validate.Verdict.{
  Place, attribute_sets, event_sets, negative_weight, no_positive_weight, p50_too_small,
  p99_below_p50, outlier_rate_range, outlier_multiplier_range, empty_metric_name, metric_bounds,
  invalid_metric_kind, surge_period, surge_duration, surge_multiplier, surge_too_long,
  surge_unknown_route, weights_not_100, Report, pass, fail, warn, require, ◌>>◌,
}

-- The loop that adds the weights up and stops at a negative one.
pub data Weighed : Type 0 where
  sum : ℤ → Weighed
  negative_at : ℕ → Weighed

unfoldable pub weigh : ℕ → ℤ → List ℤ → Weighed
weigh i total [] = sum total
weigh i total (w ∷ ws) = if ltb_ℤ w (pos 0) then negative_at i else weigh (suc i) (total +ℤ w) ws

unfoldable pub check_attribute_weights : Place → Weighed → Report
check_attribute_weights place (negative_at i) = fail (negative_weight place attribute_sets i)
check_attribute_weights place (sum total) =
    if eqb_ℤ total (pos 0)
    then fail (no_positive_weight place attribute_sets)
    else if eqb_ℤ total (pos 100)
    then pass
    else warn (weights_not_100 place total)

unfoldable pub check_event_weights : Place → Weighed → Report
check_event_weights place (negative_at i) = fail (negative_weight place event_sets i)
check_event_weights place (sum total) =
    if eqb_ℤ total (pos 0) then fail (no_positive_weight place event_sets) else pass

module _ {F : Type 0} where
  -- `len(attrs) > 0` and `len(events) > 0` are the patterns.
  unfoldable pub check_attributes : Place → List (AttributeSet F) → Report
  unfolding check_attribute_weights weigh
  check_attributes place [] = pass
  check_attributes place (a ∷ rest) =
      check_attribute_weights place (weigh 0 (pos 0) (map (λ x. x.weight) (a ∷ rest)))

  unfoldable pub check_events : Place → List (EventSet F) → Report
  unfolding check_event_weights weigh
  check_events place [] = pass
  check_events place (e ∷ es) =
      check_event_weights place (weigh 0 (pos 0) (map (λ x. x.weight) (e ∷ es)))

  unfoldable pub validate_weighted : Place → List (AttributeSet F) → List (EventSet F) → Report
  unfolding check_attributes check_events
  validate_weighted place attrs events = check_attributes place attrs >> check_events place events

unfoldable pub is_metric_kind : Text → Bool
is_metric_kind k = text_eq k (bytes "counter") || text_eq k (bytes "histogram")

module _ {F : Type 0} ⦃fl : Float64 F⦄ where
  unfoldable pub validate_latency : Place → Latency F → Report
  validate_latency place l =
      if ltb_ℤ l.p50 (pos 1)
      then fail (p50_too_small place l.p50)
      else if ltb_ℤ l.p99 l.p50
      then fail (p99_below_p50 place l.p50 l.p99)
      else if fl.lt l.outlier_rate (fl.of_int (pos 0)) || fl.le (fl.of_int (pos 1)) l.outlier_rate
      then fail (outlier_rate_range place)
      else if fl.lt (fl.of_int (pos 0)) l.outlier_rate
          && fl.lt l.outlier_multiplier (fl.of_int (pos 1))
      then fail (outlier_multiplier_range place)
      else pass

  unfoldable pub validate_business_metric : Place → ℕ → BusinessMetric F → Report
  unfolding is_metric_kind
  validate_business_metric place k m =
      if text_eq m.name []
      then fail (empty_metric_name place k)
      else if not (is_metric_kind m.kind)
      then fail (invalid_metric_kind place k m.kind)
      else if text_eq m.kind (bytes "histogram") && fl.lt m.max m.min
      then fail (metric_bounds place k)
      else pass

-- The inner loop of validateSurge over the root routes.
unfoldable pub is_root_route : Text → List RootRoute → Bool
is_root_route want [] = false
is_root_route want (rr ∷ rest) = text_eq rr.route want || is_root_route want rest

unfoldable pub check_surge_routes : ℕ → List RootRoute → List Text → Report
unfolding is_root_route
check_surge_routes i roots [] = pass
check_surge_routes i roots (want ∷ rest) =
    require (is_root_route want roots) (surge_unknown_route i want)
    >> check_surge_routes i roots rest

module _ {F : Type 0} ⦃fl : Float64 F⦄ where
  unfoldable pub validate_surge : ℕ → Surge F → File F → Report
  unfolding check_surge_routes
  validate_surge i s f =
      if leb_ℤ s.every_minutes (pos 0)
      then fail (surge_period i)
      else if leb_ℤ s.duration_seconds (pos 0)
      then fail (surge_duration i)
      else if leb_ℤ (s.every_minutes *ℤ pos 60) s.duration_seconds
      then fail (surge_too_long i s.duration_seconds s.every_minutes)
      else if fl.lt s.multiplier (fl.of_int (pos 1))
      then fail (surge_multiplier i)
      else check_surge_routes i f.root_routes s.routes
