-- ===== src/Telemetry/Exporters.antt =====
-- internal/telemetry/exporters.go: what each of a service's three exporters is built with, as the list
-- of its options, and the selectors of internal/telemetry/backend.go. `create` gives the error of the
-- SDK's constructor for a signal and its options, if any.
pub mod Agreement
use otel_ecom_load_genrator.Prelude.{
  Bool, true, false, Option, none, some, List, [], ◌∷◌, ◌++◌, if◌then◌else◌,
}
use otel_ecom_load_genrator.Prelude.Text.{Text}
use otel_ecom_load_genrator.Telemetry.Endpoint.{
  Protocol, grpc, http, host_port, Env, Options, Result, ok, err, resolve_endpoint, is_local,
}
use otel_ecom_load_genrator.Telemetry.Endpoint
use otel_ecom_load_genrator.Telemetry.Providers.{Signal, traces, metrics, logs}

-- The instrument kinds of the metric SDK.
pub data InstrumentKind : Type 0 where
  counter up_down_counter histogram gauge : InstrumentKind
  observable_counter observable_up_down_counter observable_gauge : InstrumentKind

pub data Temporality : Type 0 where
  delta cumulative : Temporality

unfoldable pub delta_temporality_selector : InstrumentKind → Temporality
delta_temporality_selector counter = delta
delta_temporality_selector histogram = delta
delta_temporality_selector observable_counter = delta
delta_temporality_selector observable_up_down_counter = delta
delta_temporality_selector _ = cumulative

-- A base-2 exponential histogram with its two bounds, or what the SDK takes by default.
pub data Aggregation : Type 0 where
  base2_exponential : Aggregation
  sdk_default : InstrumentKind → Aggregation

unfoldable pub exponential_histogram_selector : InstrumentKind → Aggregation
exponential_histogram_selector histogram = base2_exponential
exponential_histogram_selector k = sdk_default k

-- The options that the exporters' packages have in common, and the two of the metric exporters.
pub data ExporterOption : Type 0 where
  gzip : ExporterOption
  endpoint : Text → ExporterOption
  plaintext : ExporterOption
  headers : List (Text × Text) → ExporterOption
  shared_conn : ExporterOption
  temporality : (InstrumentKind → Temporality) → ExporterOption
  aggregation : (InstrumentKind → Aggregation) → ExporterOption

pub record ExporterFactory : Type 0 where
  pub protocol : Protocol
  pub headers_given : List (Text × Text)
  pub endpoint_url : Text
  pub insecure : Bool

-- The options that the HTTP branches append: the host and whether it is plaintext, and the headers.
abbrev pub host_options : Option (Text × Bool) → List ExporterOption
host_options none = []
host_options (some (host, plain)) = endpoint host ∷ (if plain then plaintext ∷ [] else [])

abbrev pub header_options : List (Text × Text) → List ExporterOption
header_options [] = []
header_options (h ∷ hs) = headers (h ∷ hs) ∷ []

unfoldable pub traces_options : ExporterFactory → List ExporterOption
unfolding host_port
traces_options f = elim f.protocol [
  | http ↦
      gzip ∷ (host_options (host_port f.insecure f.endpoint_url) ++ header_options f.headers_given)
  | grpc ↦ shared_conn ∷ headers f.headers_given ∷ gzip ∷ []
]

unfoldable pub metrics_options : ExporterFactory → List ExporterOption
unfolding host_port
metrics_options f = elim f.protocol [
  | http ↦
      gzip
      ∷ temporality delta_temporality_selector
      ∷ aggregation exponential_histogram_selector
      ∷ (host_options (host_port f.insecure f.endpoint_url) ++ header_options f.headers_given)
  | grpc ↦
      shared_conn
      ∷ headers f.headers_given
      ∷ gzip
      ∷ temporality delta_temporality_selector
      ∷ aggregation exponential_histogram_selector
      ∷ []
]

unfoldable pub logs_options : ExporterFactory → List ExporterOption
unfolding host_port
logs_options f = elim f.protocol [
  | http ↦
      gzip ∷ (host_options (host_port f.insecure f.endpoint_url) ++ header_options f.headers_given)
  | grpc ↦ shared_conn ∷ headers f.headers_given ∷ gzip ∷ []
]

-- exporterFactory.all: the first constructor that fails, with its error.
unfoldable pub all_exporters :
    (Signal → List ExporterOption → Option Text) → ExporterFactory → Option (Signal × Text)
unfolding traces_options metrics_options logs_options
all_exporters create f = elim (create traces (traces_options f)) [
  | some e ↦ some (traces, e)
  | none ↦ elim (create metrics (metrics_options f)) [
    | some e ↦ some (metrics, e)
    | none ↦ elim (create logs (logs_options f)) [ some e ↦ some (logs, e) | none ↦ none ]
  ]
]

-- The factory that telemetry.Setup makes, before it connects.
unfoldable pub factory_of : Env → Options → Result ExporterFactory
unfolding resolve_endpoint Endpoint.headers
factory_of env o = elim (resolve_endpoint env o) [
  | err e ↦ err e
  | ok url ↦ elim (Endpoint.headers env o) [
    | err e ↦ err e
    | ok hs ↦ ok (record {
      protocol = o.protocol;
      headers_given = hs;
      endpoint_url = url;
      insecure = is_local o.backend;
    })
  ]
]
