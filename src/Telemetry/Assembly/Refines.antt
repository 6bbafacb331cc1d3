-- ===== src/Telemetry/Assembly/Refines.antt =====
-- Setup with all its parts does what Telemetry.Providers says.
use otel_ecom_load_genrator.Prelude.{
  ℕ, suc, ◌≡◌, refl, sym, ap, Bool, true, false, ◌∙◌, Option, none, some, List, [], ◌∷◌, get_elem?,
  ◌+◌, arith,
}
use otel_ecom_load_genrator.Prelude.Text.{Text, text_eq}
use otel_ecom_load_genrator.Config.{Service, Topology}
use otel_ecom_load_genrator.Telemetry.Endpoint.{
  Env, Options, Result, ok, err, Protocol, grpc, http, is_local, headers, resolve_endpoint,
}
use otel_ecom_load_genrator.Telemetry.Providers.{
  traces, metrics, logs, Providers, Sdk, Stage, resource, trace_exporter, metric_exporter,
  log_exporter, duration_histogram, request_counter, error_counter, Build, stages, first_error,
  setup, add_services, register, connect, no_providers,
}
use otel_ecom_load_genrator.Telemetry.Exporters.{
  ExporterFactory, traces_options, metrics_options, logs_options, all_exporters, factory_of,
}
use otel_ecom_load_genrator.Telemetry.Emitter.{
  red_duration, red_requests, red_errors, ask, new_emitter,
}
use otel_ecom_load_genrator.Telemetry.Assembly.{
  Parts, Added, not_started, orphaned, added, resource_attributes, build_service, Live, start,
  no_live, dial_grpc, build_services, set_up,
}

abbrev service_error : Added → Option (Stage × Text)
service_error (not_started stage e) = some (stage, e)
service_error (orphaned stage e) = some (stage, e)
service_error (added em) = none

module _ {F : Type 0} (parts : Parts) (f : ExporterFactory) (o : Options) where
  -- What the call of each stage returns for service i.
  abbrev pub stage_error : ℕ → Service F → Stage → Option Text
  stage_error i s resource = parts.new_resource i (resource_attributes s o.namespace o.environment)
  stage_error i s trace_exporter = parts.new_exporter i traces (traces_options f)
  stage_error i s metric_exporter = parts.new_exporter i metrics (metrics_options f)
  stage_error i s log_exporter = parts.new_exporter i logs (logs_options f)
  stage_error i s duration_histogram = parts.meter i [] red_duration
  stage_error i s request_counter = parts.meter i (red_duration ∷ []) red_requests
  stage_error i s error_counter = parts.meter i (red_duration ∷ red_requests ∷ []) red_errors

  build_service-first_error :
      (i : ℕ) (s : Service F)
      → service_error (build_service parts f o i s) ≡ first_error (λ j. stage_error j s) i stages
  unfolding build_service all_exporters new_emitter ask first_error text_eq
  build_service-first_error i s = ground arith

-- Only the errors of service i matter to it.
first_error-same :
    (b b' : Build) (i : ℕ) (ss : List Stage)
    → ((stage : Stage) → b i stage ≡ b' i stage)
    → first_error b i ss ≡ first_error b' i ss
unfolding first_error
first_error-same b b' i [] h = refl
first_error-same b b' i (stage ∷ rest) h =
    let later = first_error-same b b' i rest h in let now = h stage in ground arith

module _ {F : Type 0} (parts : Parts) (env : Env) (sdk : Sdk) (t : Topology F) (o : Options) where
  -- What dialGRPC returns to Setup, and what the stages of each service do.
  abbrev pub dial_of : Option Text
  dial_of = elim (factory_of env o) [ err e ↦ none | ok f ↦ dial_grpc parts env f.endpoint_url o ]

  abbrev pub errors_of : ExporterFactory → Build
  errors_of f i stage = elim (get_elem? t.services i) [
    | none ↦ none
    | some s ↦ stage_error parts f o i s stage
  ]

  abbrev pub build_of : Build
  build_of i stage = elim (factory_of env o) [ err e ↦ none | ok f ↦ errors_of f i stage ]

  module _ (f : ExporterFactory) (build : Build)
      (same : (i : ℕ) (stage : Stage) → build i stage ≡ errors_of f i stage) where
    build_service-build :
        (i : ℕ) (s : Service F)
        → get_elem? t.services i ≡ some s
        → service_error (build_service parts f o i s) ≡ first_error build i stages
    build_service-build i s e =
        build_service-first_error parts f o i s
        ∙ first_error-same (λ j. stage_error parts f o j s) build i stages
            (λ stage. sym (
              same i stage
              ∙ ap
                  (λ (x : Option (Service F)). elim x [
                    | none ↦ none
                    | some s' ↦ stage_error parts f o i s' stage
                  ])
                  e))

    build_services-add_services :
        (i : ℕ) (ss : List (Service F)) (p : Providers) (live : Live)
        → ((k : ℕ) → get_elem? t.services (i + k) ≡ get_elem? ss k)
        → (build_services parts f o sdk i ss p live).0 ≡ add_services build sdk i ss p
    unfolding build_services add_services
    build_services-add_services i [] p live here = refl
    build_services-add_services i (s ∷ ss) p live here =
        let q = register i s.service_name p in
        by_result (build_service parts f o i s) refl
          (build_service-build i s (ap (get_elem? t.services) (omega arith) ∙ here 0))
          (λ live'.
            build_services-add_services (suc i) ss q live'
              (λ k. ap (get_elem? t.services) (omega arith) ∙ here (suc k)))
      where
        by_result :
            (a : Added)
            → build_service parts f o i s ≡ a
            → service_error a ≡ first_error build i stages
            → ((live' : Live)
                → (build_services parts f o sdk (suc i) ss (register i s.service_name p) live').0
                  ≡ add_services build sdk (suc i) ss (register i s.service_name p))
            → (build_services parts f o sdk i (s ∷ ss) p live).0
              ≡ add_services build sdk i (s ∷ ss) p
        by_result (not_started stage x) found e later = ground arith
        by_result (orphaned stage x) found e later = ground arith
        by_result (added em) found e later =
            let rest =
              later (record (start i live) { emitters = (s.service_name, em) ∷ live.emitters }) in
            ground arith

  abbrev factory : Text → List (Text × Text) → ExporterFactory
  factory url hs = record {
    protocol = o.protocol;
    headers_given = hs;
    endpoint_url = url;
    insecure = is_local o.backend;
  }

  factory_of-ok :
      (url : Text) (hs : List (Text × Text))
      → resolve_endpoint env o ≡ ok url
      → headers env o ≡ ok hs
      → factory_of env o ≡ ok (factory url hs)
  unfolding factory_of
  factory_of-ok url hs e e' = ground arith

  set_up-connect :
      (f : ExporterFactory)
      → factory_of env o ≡ ok f
      → (set_up parts env sdk t o).0 ≡ connect dial_of build_of sdk f.protocol t.services
  unfolding set_up connect
  set_up-connect f made =
      let same : (i : ℕ) (stage : Stage) → build_of i stage ≡ errors_of f i stage = λ i stage.
        ap (λ (r : Result ExporterFactory). elim r [ err e ↦ none | ok f' ↦ errors_of f' i stage ])
          made in
      let dialled : dial_of ≡ dial_grpc parts env f.endpoint_url o =
        ap
          (λ (r : Result ExporterFactory). elim r [
            | err e ↦ none
            | ok f' ↦ dial_grpc parts env f'.endpoint_url o
          ])
          made in
      by_protocol f.protocol refl (dial_grpc parts env f.endpoint_url o) refl dialled (λ conn.
        build_services-add_services f build_of same 0 t.services (no_providers conn) no_live
          (λ k. ap (get_elem? t.services) (omega arith)))
    where
      by_protocol :
          (protocol : Protocol)
          → f.protocol ≡ protocol
          → (d : Option Text) → dial_grpc parts env f.endpoint_url o ≡ d
          → dial_of ≡ dial_grpc parts env f.endpoint_url o
          → ((conn : Bool)
              → (build_services parts f o sdk 0 t.services (no_providers conn) no_live).0
                ≡ add_services build_of sdk 0 t.services (no_providers conn))
          → (set_up parts env sdk t o).0 ≡ connect dial_of build_of sdk f.protocol t.services
      by_protocol http e d e' dialled served = let all = served false in ground arith
      by_protocol grpc e none e' dialled served = let all = served true in ground arith
      by_protocol grpc e (some x) e' dialled served = ground arith

  -- Setup, with all the calls that it makes, is the Setup of Telemetry.Providers, whatever those
  -- calls return: it serves the same services in the same order and ends in the same result, with
  -- each step of a service failing exactly when its call does.
  pub set_up-setup : (set_up parts env sdk t o).0 ≡ setup env dial_of build_of sdk t o
  unfolding set_up setup factory_of connect
  set_up-setup = by_url (resolve_endpoint env o) refl
    where
      by_headers :
          (url : Text) (hs : Result (List (Text × Text)))
          → resolve_endpoint env o ≡ ok url
          → headers env o ≡ hs
          → (set_up parts env sdk t o).0 ≡ setup env dial_of build_of sdk t o
      by_headers url (err x) e e' = ground arith
      by_headers url (ok hs) e e' =
          set_up-connect (factory url hs) (factory_of-ok url hs e e') ∙ ground arith

      by_url :
          (r : Result Text)
          → resolve_endpoint env o ≡ r
          → (set_up parts env sdk t o).0 ≡ setup env dial_of build_of sdk t o
      by_url (err x) e = ground arith
      by_url (ok url) e = by_headers url (headers env o) e refl
