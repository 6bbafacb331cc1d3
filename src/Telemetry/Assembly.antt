-- ===== src/Telemetry/Assembly.antt =====
-- internal/telemetry/providers.go: Setup with all that addService builds. Telemetry.Providers has
-- the fallible steps of a service as a list; here they are the calls that the program makes, with
-- the arguments that it computes. What the SDK and gRPC return is given by `Parts`, with the index
-- of the service.
pub mod Refines
pub mod Orphans
pub mod Secure
use otel_ecom_load_genrator.Prelude.{
  ℕ, zero, suc, Bool, true, false, Option, none, some, List, [], ◌∷◌, ◌++◌, if◌then◌else◌,
}
use otel_ecom_load_genrator.Prelude.Text.{Text, bytes, text_eq}
use otel_ecom_load_genrator.Config.{Service, Topology}
use otel_ecom_load_genrator.Telemetry.Endpoint.{Env, Options, grpc, http, ok, err, grpc_target}
use otel_ecom_load_genrator.Telemetry.Providers.{
  Signal, traces, metrics, logs, Providers, Sdk, Stage, resource, trace_exporter, metric_exporter,
  log_exporter, duration_histogram, request_counter, error_counter, SetUp, ready, refused,
  not_connected, given_up, no_providers, register, shutdown,
}
use otel_ecom_load_genrator.Telemetry.Exporters.{
  ExporterOption, ExporterFactory, all_exporters, factory_of,
}
use otel_ecom_load_genrator.Telemetry.Emitter.{
  Kind, counter, histogram, Request, Meter, Emitter, made, failed, new_emitter, red_requests,
}

pub data Transport : Type 0 where
  tls plaintext : Transport

pub record Parts : Type 0 where
  -- resource.New, grpc.NewClient, and the constructors of the exporters' packages.
  pub new_resource : ℕ → List (Text × Text) → Option Text
  pub new_client : Text → Transport → Option Text
  pub new_exporter : ℕ → Signal → List ExporterOption → Option Text
  pub meter : ℕ → Meter

unfoldable pub dial_grpc : Parts → Env → Text → Options → Option Text
unfolding grpc_target
dial_grpc parts env endpoint o =
    let (target, use_tls) = grpc_target env endpoint o in
    parts.new_client target (if use_tls then tls else plaintext)

abbrev pub exporter_stage : Signal → Stage
exporter_stage traces = trace_exporter
exporter_stage metrics = metric_exporter
exporter_stage logs = log_exporter

-- The stage of one of the three requests of newEmitter.
abbrev pub instrument_stage : Request → Stage
instrument_stage r = elim r.kind [
  | histogram ↦ duration_histogram
  | counter ↦ if text_eq r.name red_requests.name then request_counter else error_counter
]

-- What addService ends with: nothing started, the three providers started and then abandoned, or
-- an emitter for them.
pub data Added : Type 0 where
  not_started : Stage → Text → Added
  orphaned : Stage → Text → Added
  added : Emitter → Added

-- The emitters, the last one first, and the services whose three providers have been started.
pub record Live : Type 0 where
  pub emitters : List (Text × Emitter)
  pub started : List ℕ

abbrev pub no_live : Live
no_live = record { emitters = []; started = [] }

abbrev pub start : ℕ → Live → Live
start i live = record live { started = live.started ++ i ∷ [] }

module _ {F : Type 0} where
  -- Of its options, buildResource reads these two.
  unfoldable pub resource_attributes :
      Service F → (namespace environment : Text) → List (Text × Text)
  unfolding text_eq
  resource_attributes s namespace environment =
      (bytes "service.name", s.service_name)
      ∷ (bytes "service.namespace", namespace)
      ∷ (bytes "deployment.environment.name", environment)
      ∷ (if text_eq s.tier [] then [] else (bytes "service.tier", s.tier) ∷ [])

  -- addService up to its registration.
  unfoldable pub build_service : Parts → ExporterFactory → Options → ℕ → Service F → Added
  unfolding resource_attributes all_exporters new_emitter text_eq
  build_service parts f o i s =
      elim (parts.new_resource i (resource_attributes s o.namespace o.environment)) [
        | some e ↦ not_started resource e
        | none ↦ elim (all_exporters (parts.new_exporter i) f) [
          | some (signal, e) ↦ not_started (exporter_stage signal) e
          | none ↦ elim (new_emitter (parts.meter i)) [
            | failed r e ↦ orphaned (instrument_stage r) e
            | made em ↦ added em
          ]
        ]
      ]

  unfoldable pub build_services :
      Parts
      → ExporterFactory
      → Options
      → Sdk
      → ℕ
      → List (Service F)
      → Providers
      → Live
      → SetUp × Live
  unfolding build_service register shutdown
  build_services parts f o sdk i [] p live = (ready p, live)
  build_services parts f o sdk i (s ∷ ss) p live = elim (build_service parts f o i s) [
    | not_started stage e ↦ (given_up i stage e (shutdown sdk p), live)
    | orphaned stage e ↦ (given_up i stage e (shutdown sdk p), start i live)
    | added em ↦
        build_services parts f o sdk (suc i) ss (register i s.service_name p)
          (record (start i live) { emitters = (s.service_name, em) ∷ live.emitters })
  ]

  unfoldable pub set_up : Parts → Env → Sdk → Topology F → Options → SetUp × Live
  unfolding factory_of dial_grpc build_services
  set_up parts env sdk t o = elim (factory_of env o) [
    | err e ↦ (refused e, no_live)
    | ok f ↦ elim f.protocol [
      | http ↦ build_services parts f o sdk 0 t.services (no_providers false) no_live
      | grpc ↦ elim (dial_grpc parts env f.endpoint_url o) [
        | some e ↦ (not_connected e, no_live)
        | none ↦ build_services parts f o sdk 0 t.services (no_providers true) no_live
      ]
    ]
  ]
