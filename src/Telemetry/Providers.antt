-- ===== src/Telemetry/Providers.antt =====
-- internal/telemetry/providers.go: Setup and Shutdown. The SDK's providers are known by the index of
-- their service in the topology. What the SDK and gRPC return is given by arguments: `sdk` for the
-- calls on providers and on the connection, `build` for the fallible steps of addService, with the
-- index of the service, and `dial` for dialGRPC.
pub mod Laws
pub mod Started
pub mod Ready
use otel_ecom_load_genrator.Prelude.{
  ℕ, zero, suc, Bool, true, false, Option, none, some, List, [], ◌∷◌, ◌++◌,
}
use otel_ecom_load_genrator.Prelude.Text.{Text}
use otel_ecom_load_genrator.Config.{Service, Topology}
use otel_ecom_load_genrator.Telemetry.Endpoint.{
  Env, Options, Fault, Result, ok, err, Protocol, grpc, http, resolve_endpoint, headers,
}

pub data Signal : Type 0 where
  traces metrics logs : Signal

pub data Op : Type 0 where
  flushing shutting_down : Op

-- ForceFlush or Shutdown of a provider, and Close of the connection.
pub data Call : Type 0 where
  on : Op → Signal → ℕ → Call
  close : Call

-- The services in `emitters` have an Emitter; `conn` says whether there is a connection.
pub record Providers : Type 0 where
  pub emitters : List Text
  pub trace_providers : List ℕ
  pub metric_providers : List ℕ
  pub log_providers : List ℕ
  pub conn : Bool

-- The error of a call, if any, given the calls before it.
abbrev pub Sdk : Type 0
Sdk = List Call → Call → Option Text

-- The calls made so far, and the errors collected, each with its call.
pub record Progress : Type 0 where
  pub calls : List Call
  pub errors : List (Call × Text)

unfoldable pub perform : Sdk → Progress → Call → Progress
perform sdk d c = record {
  calls = d.calls ++ c ∷ [];
  errors = elim (sdk d.calls c) [ none ↦ d.errors | some e ↦ d.errors ++ (c, e) ∷ [] ];
}

-- One of the loops of forEachProvider.
unfoldable pub perform_each : Sdk → Op → Signal → List ℕ → Progress → Progress
unfolding perform
perform_each sdk op signal [] d = d
perform_each sdk op signal (i ∷ is) d =
    perform_each sdk op signal is (perform sdk d (on op signal i))

unfoldable pub for_each_provider : Sdk → Op → Providers → Progress → Progress
unfolding perform_each
for_each_provider sdk op p d = perform_each sdk op logs p.log_providers (
    perform_each sdk op metrics p.metric_providers (perform_each sdk op traces p.trace_providers d))

unfoldable pub close_conn : Sdk → Bool → Progress → Progress
unfolding perform
close_conn sdk true d = perform sdk d close
close_conn sdk false d = d

unfoldable pub shutdown : Sdk → Providers → Progress
unfolding for_each_provider close_conn
shutdown sdk p = close_conn sdk p.conn (
    for_each_provider sdk shutting_down p
      (for_each_provider sdk flushing p (record { calls = []; errors = [] })))

-- The fallible steps of addService: buildResource, the three of factory.all, and those of newEmitter.
pub data Stage : Type 0 where
  resource trace_exporter metric_exporter log_exporter : Stage
  duration_histogram request_counter error_counter : Stage

abbrev pub Build : Type 0
Build = ℕ → Stage → Option Text

abbrev pub stages : List Stage
stages =
    resource ∷ trace_exporter ∷ metric_exporter ∷ log_exporter ∷ duration_histogram
    ∷ request_counter ∷ error_counter ∷ []

-- The step that ends addService early, with its error.
unfoldable pub first_error : Build → ℕ → List Stage → Option (Stage × Text)
first_error build i [] = none
first_error build i (stage ∷ rest) = elim (build i stage) [
  | none ↦ first_error build i rest
  | some e ↦ some (stage, e)
]

-- The registration at the end of addService.
unfoldable pub register : ℕ → Text → Providers → Providers
register i name p = record p {
  emitters = name ∷ p.emitters;
  trace_providers = p.trace_providers ++ i ∷ [];
  metric_providers = p.metric_providers ++ i ∷ [];
  log_providers = p.log_providers ++ i ∷ [];
}

-- The result of Setup: refused before any service, or given up at a service, after a Shutdown.
pub data SetUp : Type 0 where
  ready : Providers → SetUp
  refused : Fault → SetUp
  not_connected : Text → SetUp
  given_up : ℕ → Stage → Text → Progress → SetUp

abbrev pub no_providers : Bool → Providers
no_providers conn = record {
  emitters = [];
  trace_providers = [];
  metric_providers = [];
  log_providers = [];
  conn = conn;
}

module _ {F : Type 0} where
  unfoldable pub add_services : Build → Sdk → ℕ → List (Service F) → Providers → SetUp
  unfolding first_error register shutdown
  add_services build sdk i [] p = ready p
  add_services build sdk i (s ∷ ss) p = elim (first_error build i stages) [
    | none ↦ add_services build sdk (suc i) ss (register i s.service_name p)
    | some (stage, e) ↦ given_up i stage e (shutdown sdk p)
  ]

  unfoldable pub connect : Option Text → Build → Sdk → Protocol → List (Service F) → SetUp
  unfolding add_services
  connect dial build sdk http ss = add_services build sdk 0 ss (no_providers false)
  connect (some e) build sdk grpc ss = not_connected e
  connect none build sdk grpc ss = add_services build sdk 0 ss (no_providers true)

  unfoldable pub setup : Env → Option Text → Build → Sdk → Topology F → Options → SetUp
  unfolding resolve_endpoint headers connect
  setup env dial build sdk t o = elim (resolve_endpoint env o) [
    | err e ↦ refused e
    | ok _ ↦ elim (headers env o) [
      | err e ↦ refused e
      | ok _ ↦ connect dial build sdk o.protocol t.services
    ]
  ]
