-- ===== src/Command/Process/Defaults.antt =====
-- A run with the default flags.
use otel_ecom_load_genrator.Prelude.{
  ℕ, suc, ◌≡◌, ◌≢◌, refl, ap, ◌∙◌, true, false, Option, none, some, List, [], ◌∷◌, Mem, arith,
}
use otel_ecom_load_genrator.Prelude.Int.{pos}
use otel_ecom_load_genrator.Prelude.Text.{Text, bytes, text_eq, text_eq_iff}
use otel_ecom_load_genrator.Prelude.Float64.{Float64}
use otel_ecom_load_genrator.Config.{Service, Topology, File}
use otel_ecom_load_genrator.Validate.Verdict.{Warning}
use otel_ecom_load_genrator.Validate.Load.{loaded, load}
use otel_ecom_load_genrator.Engine.Timing.{synthetic, parse_timing_mode}
use otel_ecom_load_genrator.Telemetry.Endpoint.{
  Env, Options, ok, grpc, new_relic, resolve_endpoint, headers, grpc_target, parse_backend,
  parse_protocol,
}
use otel_ecom_load_genrator.Telemetry.Exporters.{ExporterFactory, ExporterOption, factory_of}
use otel_ecom_load_genrator.Telemetry.Emitter.{
  Request, made, Emitter, Meter, new_emitter, red_duration, red_requests, red_errors, ask,
}
use otel_ecom_load_genrator.Telemetry.Providers.{
  Signal, Providers, Sdk, ready, register, no_providers,
}
use otel_ecom_load_genrator.Telemetry.Assembly.{
  Parts, tls, added, Live, no_live, start, dial_grpc, resource_attributes, build_service,
  build_services, set_up,
}
use otel_ecom_load_genrator.Command.{World, RunFault, generated, info, level_of, options_of}
use otel_ecom_load_genrator.Telemetry.Harness.SameSetup.{none_fails}
use otel_ecom_load_genrator.Command.Generates.{run-Generates}
use otel_ecom_load_genrator.Command.Process.{set_topology, default_flags, parse_flags, given, main}

abbrev default_options : Options
default_options = options_of default_flags new_relic grpc

abbrev us_endpoint : Text
us_endpoint = bytes "https://staging-otlp.nr-data.net:4317"

-- The host that a run with the default flags dials.
abbrev pub us_target : Text
us_target = bytes "staging-otlp.nr-data.net:4317"

-- Nothing that addService calls fails.
pub record Works (parts : Parts) : Type 0 where
  pub resources : (i : ℕ) (attributes : List (Text × Text)) → parts.new_resource i attributes ≡ none
  pub exporters :
      (i : ℕ) (signal : Signal) (os : List ExporterOption) → parts.new_exporter i signal os ≡ none
  pub instruments : (i : ℕ) (before : List Request) (r : Request) → parts.meter i before r ≡ none

abbrev default_factory : Env → ExporterFactory
default_factory env = record {
  protocol = grpc;
  headers_given = (bytes "api-key", env.license_key) ∷ [];
  endpoint_url = us_endpoint;
  insecure = false;
}

default_endpoint :
    (env : Env) → env.otlp_endpoint ≡ [] → resolve_endpoint env default_options ≡ ok us_endpoint
unfolding resolve_endpoint text_eq
default_endpoint env h = rw h refl

factory_of-default :
    (env : Env)
    → env.otlp_endpoint ≡ []
    → env.license_key ≢ []
    → factory_of env default_options ≡ ok (default_factory env)
unfolding factory_of headers
factory_of-default env unset keyed =
    let has_key : text_eq env.license_key [] ≡ false =
      ground (arith, text_eq_iff env.license_key []) in
    rw (factory_of, default_endpoint env unset) (rw (headers, has_key) refl)

dial_grpc-default :
    (parts : Parts) (env : Env)
    → dial_grpc parts env us_endpoint default_options ≡ parts.new_client us_target tls
unfolding dial_grpc grpc_target text_eq
dial_grpc-default parts env = refl

abbrev first_emitter : Emitter
first_emitter = record {
  requests = red_duration ∷ red_requests ∷ red_errors ∷ [];
  duration = 0;
  request_count = 1;
  error_count = 2;
  counters = [];
  histograms = [];
}

new_emitter-made :
    (meter : Meter)
    → ((before : List Request) (r : Request) → meter before r ≡ none)
    → new_emitter meter ≡ made first_emitter
unfolding new_emitter ask
new_emitter-made meter works =
    let a = works [] red_duration in
    let b = works (red_duration ∷ []) red_requests in
    let c = works (red_duration ∷ red_requests ∷ []) red_errors in ground arith

module _ {F : Type 0} (parts : Parts) (works : Works parts) (f : ExporterFactory) (o : Options)
    (sdk : Sdk) where
  build_service-added : (i : ℕ) (s : Service F) → build_service parts f o i s ≡ added first_emitter
  unfolding build_service
  build_service-added i s =
      let emitter = new_emitter-made (parts.meter i) (works.instruments i) in
      let no_failure = none_fails (parts.new_exporter i) f (works.exporters i) in
      let described = works.resources i (resource_attributes s o.namespace o.environment) in
      ground arith

  build_services-ready :
      (i : ℕ) (ss : List (Service F)) (p : Providers) (live : Live)
      → (q : Providers) × ((build_services parts f o sdk i ss p live).0 ≡ ready q)
  unfolding build_services
  build_services-ready i [] p live = (p, refl)
  build_services-ready i (s ∷ ss) p live =
      let (q, e') =
        build_services-ready (suc i) ss (register i s.service_name p)
          (record (start i live) { emitters = (s.service_name, first_emitter) ∷ live.emitters }) in
      (q, rw (build_services, build_service-added i s) e')

set_up-default :
    {F : Type 0} (parts : Parts) (env : Env) (sdk : Sdk) (t : Topology F)
    → Works parts
    → env.otlp_endpoint ≡ []
    → env.license_key ≢ []
    → parts.new_client us_target tls ≡ none
    → (q : Providers) × ((set_up parts env sdk t default_options).0 ≡ ready q)
unfolding set_up
set_up-default parts env sdk t works unset keyed dials =
    let (q, e) =
      build_services-ready parts works (default_factory env) default_options sdk 0 t.services
        (no_providers true) no_live in
    let made_by = factory_of-default env unset keyed in
    let dialled = dial_grpc-default parts env ∙ dials in (q, rw (set_up, made_by, dialled) e)

-- With no flag but --topology, a document that loads, a license key, no endpoint in the environment, a
-- connection over TLS to New Relic's US host and an SDK that fails nowhere, the process generates load
-- in synthetic timing with a report every 30 seconds, and ends with status 0, whatever the Shutdown
-- meets.
pub main-default :
    {F : Type 0} ⦃fl : Float64 F⦄ (w : World F) (path : Text) (file : File F) (ws : List Warning)
    → path ≢ []
    → load w.read w.decode path ≡ loaded file ws
    → w.env.otlp_endpoint ≡ []
    → w.env.license_key ≢ []
    → w.parts.new_client us_target tls ≡ none
    → Works w.parts
    → (p : Providers) × Mem
        (generated file p synthetic (pos 30_000_000_000))
        (main w (given (set_topology path ∷ []))).steps
      × ((main w (given (set_topology path ∷ []))).status ≡ 0)
unfolding main parse_flags level_of parse_backend parse_protocol parse_timing_mode
main-default w path file ws named read unset keyed dials works =
    let (p, set) = set_up-default w.parts w.env w.sdk file.topology works unset keyed dials in
    let whole =
      run-Generates w (parse_flags (set_topology path ∷ [])) file ws info new_relic grpc synthetic p
        refl named read refl refl refl refl set in
    (p, whole.0, ap (λ (e : Option RunFault). elim e as (λ _. ℕ) [ none ↦ 0 | some _ ↦ 1 ]) whole.1)
