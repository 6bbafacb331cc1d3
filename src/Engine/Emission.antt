-- ===== src/Engine/Emission.antt =====
-- internal/engine/engine.go: EmitTrace and what it calls, and the counters of the Engine; the RED
-- record is that of internal/telemetry/emitter.go. The goroutines of emitDownstreams are run one
-- after the other, in the order of the map; the counters only ever grow by one, so their sums do not
-- depend on that order. `emitters` holds the services that have an Emitter. The random draws of a
-- span are those that `plan` gives for its position: the indices of the calls from the root to it.
pub mod Business
pub mod Totals
pub mod Returns
pub mod CallTree
pub mod Coverage
pub mod Visits
pub mod Once
pub mod Interleaved
pub mod Orders
pub mod Panics
use otel_ecom_load_genrator.Prelude.{
  ℕ, zero, suc, ◌+◌, Bool, true, false, Option, none, some, List, [], ◌∷◌, ◌++◌, map, if◌then◌else◌,
}
use otel_ecom_load_genrator.Prelude.Int.{ℤ, pos, ltb_ℤ}
use otel_ecom_load_genrator.Prelude.Text.{Text, bytes, text_eq, contains}
use otel_ecom_load_genrator.Prelude.Float64.{Float64}
use otel_ecom_load_genrator.Config.{
  AttributeSet, Event, EventSet, BusinessMetric, Route, Service, Topology, find_service, find_route,
}
use otel_ecom_load_genrator.Validate.Verdict.{Node}
use otel_ecom_load_genrator.Validate.Reachable.{pair_nodes}
use otel_ecom_load_genrator.Chaos.{Source, pick_attribute_set, pick_event_set, pick_instance}
use otel_ecom_load_genrator.Chaos.SampleLatency.{Draws, sample_latency_millis}
use otel_ecom_load_genrator.Telemetry.Attributes.{KeyValue, of_string, of_int64, convert_attributes}
use otel_ecom_load_genrator.Engine.RouteAttributes.{route_attributes}
use otel_ecom_load_genrator.Engine.Outcome.{SpanKind, span_kind, resolve_outcome, error_type}

pub record Counters : Type 0 where
  pub traces : ℕ
  pub spans : ℕ
  pub error_spans : ℕ
  pub logs : ℕ
  pub panics : ℕ

pub record SpanDraws (F : Type 0) : Type 0 where
  pub instance_draw : Source
  pub service_attributes : Source
  pub route_attributes : Source
  pub service_events : Source
  pub route_events : Source
  pub latency : Draws F
  pub metric : ℕ → F

pub data Severity : Type 0 where
  info error : Severity

pub record LogRecord (F : Type 0) : Type 0 where
  pub severity : Severity
  pub body : Text
  pub attributes : List (KeyValue F)

-- What RecordRED reports: the shared attributes, the duration in seconds, and whether the error
-- counter is increased beside the request counter.
pub record Red (F : Type 0) : Type 0 where
  pub attributes : List (KeyValue F)
  pub seconds : F
  pub failed : Bool

-- One recorded business metric.
pub data Recorded (F : Type 0) : Type 0 where
  counted : Text → Recorded F
  sampled : Text → F → Recorded F

pub record SpanRecord (F : Type 0) : Type 0 where
  pub position : List ℕ
  pub node : Node
  pub kind : SpanKind
  -- All SetAttributes calls in their order; a later value of a key replaces an earlier one.
  pub attributes : List (KeyValue F)
  pub events : List (Text × List (KeyValue F))
  pub failed : Bool
  pub description : Text
  pub log : LogRecord F
  pub duration_millis : ℤ
  pub red : Red F
  pub business : List (Recorded F)

abbrev pub text_value : {F : Type 0} → Text → Text → KeyValue F
text_value k v = record { key = k; value = of_string v }

unfoldable pub text_values : {F : Type 0} → List (Text × Text) → List (KeyValue F)
text_values [] = []
text_values ((k, v) ∷ kvs) = text_value k v ∷ text_values kvs

module _ {F : Type 0} ⦃fl : Float64 F⦄ where
  unfoldable pub apply_attributes : Option (AttributeSet F) → List (KeyValue F)
  unfolding convert_attributes
  apply_attributes none = []
  apply_attributes (some set) = convert_attributes set.attributes

  unfoldable pub add_events : Option (EventSet F) → List (Text × List (KeyValue F))
  unfolding convert_attributes
  add_events none = []
  add_events (some set) =
      map (λ (ev : Event F). (ev.name, convert_attributes ev.attributes)) set.events

  unfoldable pub sample_in_range : F → F → F → F
  sample_in_range min max u =
      if fl.le max min
      then (if fl.lt (fl.of_int (pos 0)) min then min else fl.of_int (pos 1))
      else fl.add min (fl.mul u (fl.sub max min))

  -- Every instrument is created; a kind that is neither counter nor histogram records nothing.
  unfoldable pub record_business_metrics : (ℕ → F) → ℕ → List (BusinessMetric F) → List (Recorded F)
  unfolding sample_in_range text_eq
  record_business_metrics u k [] = []
  record_business_metrics u k (bm ∷ bms) =
      let rest = record_business_metrics u (suc k) bms in
      if text_eq bm.kind (bytes "counter")
      then counted bm.name ∷ rest
      else if text_eq bm.kind (bytes "histogram")
      then sampled bm.name (sample_in_range bm.min bm.max (u k)) ∷ rest
      else rest

  unfoldable pub record_red : Text → Text → ℤ → ℤ → Bool → Red F
  record_red service route duration code failed =
      let status : List (KeyValue F) =
        if ltb_ℤ (pos 0) code
        then record { key = bytes "http.response.status_code"; value = of_int64 code } ∷ []
        else [] in
      record {
        attributes =
            text_value (bytes "http.route") route
            ∷ text_value (bytes "service.name") service
            ∷ status;
        seconds = fl.div (fl.of_int duration) (fl.of_int (pos 1000));
        failed = failed;
      }

  unfoldable pub outcome_log : Node → Bool → Text → LogRecord F
  outcome_log n failed err =
      if failed
      then record {
        severity = error;
        body = n.service ++ (bytes " " ++ (n.route ++ bytes " failed"));
        attributes =
            text_value (bytes "error.type") err ∷ text_value (bytes "http.route") n.route ∷ [];
      }
      else record {
        severity = info;
        body = n.service ++ (bytes " " ++ (n.route ++ bytes " completed"));
        attributes = text_value (bytes "http.route") n.route ∷ [];
      }

  -- Everything EmitTrace tells the SDK about its own span.
  unfoldable pub span_of : SpanDraws F → List ℕ → Node → Service F → Route F → SpanRecord F
  unfolding text_values apply_attributes add_events record_business_metrics record_red outcome_log
      pick_attribute_set pick_event_set pick_instance sample_latency_millis route_attributes
      resolve_outcome error_type span_kind
  span_of d position n svc route =
      let svc_set = pick_attribute_set d.service_attributes svc.attribute_sets in
      let route_set = pick_attribute_set d.route_attributes route.attribute_sets in
      let outcome = resolve_outcome svc_set route_set in
      let err = error_type outcome.1 in
      let duration = sample_latency_millis route.latency d.latency in
      record {
        position = position;
        node = n;
        kind = span_kind route.span_kind;
        attributes =
            text_value (bytes "service.instance.id") (pick_instance d.instance_draw svc.instances)
            ∷ (text_values (route_attributes n.route route.span_kind)
                ++ (apply_attributes svc_set
                    ++ (apply_attributes route_set
                        ++ (if outcome.0 then text_value (bytes "error.type") err ∷ [] else []))));
        events =
            add_events (pick_event_set d.service_events svc.event_sets)
            ++ add_events (pick_event_set d.route_events route.event_sets);
        failed = outcome.0;
        description = if outcome.0 then err else [];
        log = outcome_log n outcome.0 err;
        duration_millis = duration;
        red = record_red n.service n.route duration outcome.1 outcome.0;
        business = record_business_metrics d.metric 0 route.metrics.business;
      }

-- The increments of one visit. A span without a parent starts a trace.
unfoldable pub count_span : List ℕ → Bool → Counters → Counters
count_span position failed c = record c {
  traces = c.traces + elim position [ [] ↦ 1 | _ ∷ _ ↦ 0 ];
  spans = c.spans + 1;
  error_spans = c.error_spans + (if failed then 1 else 0);
  logs = c.logs + 1;
}

abbrev pub Emitted : Type 0 → Type 0
Emitted F = Option (List (SpanRecord F) × Counters)

abbrev pub bind_emitted :
    {F : Type 0} → Emitted F → (List (SpanRecord F) → Counters → Emitted F) → Emitted F
bind_emitted none k = none
bind_emitted (some (spans, c)) k = k spans c

module _ {F : Type 0} where
  -- The loop of emitDownstreams: call i has the position of its parent, extended by i.
  unfoldable pub emit_all :
      (List ℕ → Node → Counters → Emitted F) → List ℕ → ℕ → List Node → Counters → Emitted F
  emit_all go position i [] c = some ([], c)
  emit_all go position i (n ∷ ns) c = bind_emitted (go (position ++ i ∷ []) n c) λ spans c'.
      bind_emitted (emit_all go position (suc i) ns c') λ more c''. some (spans ++ more, c'')

-- The look-ups at the head of EmitTrace: nothing is emitted unless all three succeed.
unfoldable pub resolve_visit :
    {F : Type 0} → Topology F → List Text → Node → Option (Service F × Route F)
unfolding find_service find_route contains
resolve_visit t emitters n = elim (find_service t n.service) [
  | none ↦ none
  | some svc ↦ elim (find_route svc n.route) [
    | none ↦ none
    | some route ↦ if contains n.service emitters then some (svc, route) else none
  ]
]

module _ {F : Type 0} ⦃fl : Float64 F⦄ where
  unfoldable pub emit_visit :
      (List ℕ → Node → Counters → Emitted F)
      → SpanDraws F
      → List ℕ
      → Node
      → Option (Service F × Route F)
      → Counters
      → Emitted F
  unfolding emit_all span_of count_span pair_nodes
  emit_visit go d position n none c = some ([], c)
  emit_visit go d position n (some (svc, route)) c =
      let own = span_of d position n svc route in
      bind_emitted
        (emit_all go position 0 (pair_nodes route.downstream_calls)
          (count_span position own.failed c))
        λ spans c'. some (own ∷ spans, c')

  unfoldable pub emit_trace :
      Topology F → List Text → (List ℕ → SpanDraws F) → ℕ → List ℕ → Node → Counters → Emitted F
  unfolding emit_visit resolve_visit
  emit_trace t emitters plan zero position n c = none
  emit_trace t emitters plan (suc fuel) position n c =
      emit_visit (emit_trace t emitters plan fuel) (plan position) position n
        (resolve_visit t emitters n) c
