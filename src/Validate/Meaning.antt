-- ===== src/Validate/Meaning.antt =====
-- What an accepted topology document satisfies, stated without the passes that check it.
use otel_ecom_load_genrator.Prelude.{
  ℕ, ◌+◌, ◌*◌, ◌%◌, ◌<◌, ◌≡◌, ◌≢◌, true, false, some, List, [], ◌∷◌, map, Mem, All,
}
use otel_ecom_load_genrator.Prelude.Int.{ℤ, pos, pos_part, int64_half, int64_mod, ◌≤ℤ◌, ◌<ℤ◌}
use otel_ecom_load_genrator.Prelude.Text.{Text, bytes}
use otel_ecom_load_genrator.Prelude.Float64.{Float64}
use otel_ecom_load_genrator.Config.{
  AttributeSet, EventSet, Latency, BusinessMetric, Route, Service, Topology, RootRoute, Surge, File,
  find_service, find_route,
}
use otel_ecom_load_genrator.Config.Lookup.{Distinct}
use otel_ecom_load_genrator.Validate.Services.{valid_span_kinds}

-- A call or a root route that names a declared route.
pub record Resolves {F : Type 0} (t : Topology F) (service route : Text) : Type 0 where
  pub svc : Service F
  pub found_service : find_service t service ≡ some svc
  pub target : Route F
  pub found_route : find_route svc route ≡ some target

module _ {F : Type 0} ⦃fl : Float64 F⦄ where
  pub record LatencyOk (l : Latency F) : Type 0 where
    pub median : pos 1 ≤ℤ l.p50
    pub order : l.p50 ≤ℤ l.p99
    pub rate_low : fl.lt l.outlier_rate (fl.of_int (pos 0)) ≡ false
    pub rate_high : fl.le (fl.of_int (pos 1)) l.outlier_rate ≡ false
    pub multiplier :
        fl.lt (fl.of_int (pos 0)) l.outlier_rate ≡ true
        → fl.lt l.outlier_multiplier (fl.of_int (pos 1)) ≡ false

  pub record MetricOk (m : BusinessMetric F) : Type 0 where
    pub named : m.name ≢ []
    pub kind : Mem m.kind (bytes "counter" ∷ bytes "histogram" ∷ [])
    pub bounds : m.kind ≡ bytes "histogram" → fl.lt m.max m.min ≡ false

  pub record SurgeOk (f : File F) (s : Surge F) : Type 0 where
    pub period : pos 0 <ℤ s.every_minutes
    pub duration : pos 0 <ℤ s.duration_seconds
    -- The period in seconds, as far as 64 bits hold it, is not negative and the longer one.
    pub positive : pos_part s.every_minutes * 60 % int64_mod < int64_half
    pub shorter : pos_part s.duration_seconds < pos_part s.every_minutes * 60 % int64_mod
    pub multiplier : fl.lt s.multiplier (fl.of_int (pos 1)) ≡ false
    pub routes : All (λ r. Mem r (map (λ (rr : RootRoute). rr.route) f.root_routes)) s.routes

-- The sum of the weights that are not negative, without any bound.
abbrev pub exact_sum : List ℤ → ℕ
exact_sum [] = 0
exact_sum (w ∷ ws) = pos_part w + exact_sum ws

-- An absent list is fine; a present one has no negative weight and a sum that is not 0, nor a multiple
-- of 2^64, which an int does not tell from 0.
abbrev pub WeightsOk : List ℤ → Type 0
WeightsOk [] = Unit
WeightsOk (w ∷ ws) = All (λ x. pos 0 ≤ℤ x) (w ∷ ws) × (exact_sum (w ∷ ws) % int64_mod ≢ 0)

module _ {F : Type 0} where
  abbrev pub attribute_weights : List (AttributeSet F) → List ℤ
  attribute_weights sets = map (λ (s : AttributeSet F). s.weight) sets

  abbrev pub event_weights : List (EventSet F) → List ℤ
  event_weights sets = map (λ (s : EventSet F). s.weight) sets

module _ {F : Type 0} ⦃fl : Float64 F⦄ where
  pub record RouteOk (r : Route F) : Type 0 where
    pub named : r.route ≢ []
    pub kind : Mem r.span_kind valid_span_kinds
    pub latency : LatencyOk r.latency
    pub attributes : WeightsOk (attribute_weights r.attribute_sets)
    pub events : WeightsOk (event_weights r.event_sets)
    pub metrics : All MetricOk r.metrics.business

  pub record ServiceOk (s : Service F) : Type 0 where
    pub named : s.service_name ≢ []
    pub some_instance : s.instances ≢ []
    pub instances : All (λ i. i ≢ []) s.instances
    pub some_route : s.routes ≢ []
    pub attributes : WeightsOk (attribute_weights s.attribute_sets)
    pub events : WeightsOk (event_weights s.event_sets)
    pub distinct : Distinct (map (λ (r : Route F). r.route) s.routes)
    pub routes : All RouteOk s.routes

module _ {F : Type 0} where
  abbrev pub CallsOk : Topology F → Service F → Type 0
  CallsOk t s =
      All
        (λ (r : Route F). All (λ (call : Text × Text). Resolves t call.0 call.1) r.downstream_calls)
        s.routes

  pub record RootOk (t : Topology F) (rr : RootRoute) : Type 0 where
    pub resolves : Resolves t rr.service rr.route
    pub rate : pos 0 <ℤ rr.traces_per_hour
