-- ===== src/Telemetry/Harness/SameSetup.antt =====
-- NewTestHarness against Setup, as far as the model has them: the services that are registered, their
-- emitters, and the call at which each gives up. The exporters, readers and processors behind the
-- providers differ in the source, and neither model has them.
use otel_ecom_load_genrator.Prelude.{
  ℕ, suc, ◌≡◌, refl, false, Option, none, some, List, [], ◌∷◌, arith,
}
use otel_ecom_load_genrator.Prelude.Text.{Text, bytes}
use otel_ecom_load_genrator.Config.{Service, Topology}
use otel_ecom_load_genrator.Telemetry.Endpoint.{Env, Options, ok, http}
use otel_ecom_load_genrator.Telemetry.Exporters.{
  ExporterFactory, ExporterOption, all_exporters, factory_of, traces_options, metrics_options,
  logs_options,
}
use otel_ecom_load_genrator.Telemetry.Providers.{
  Signal, traces, metrics, logs, Providers, no_providers, register, Sdk, Progress, shutdown, SetUp,
  ready, given_up,
}
use otel_ecom_load_genrator.Telemetry.Assembly.{
  Parts, not_started, orphaned, added, resource_attributes, build_service, Live, no_live, start,
  build_services, set_up,
}
use otel_ecom_load_genrator.Telemetry.Harness.{
  Harness, built, fatal, harness_service, harness_services, new_test_harness, clean_up,
}

-- A harness against the result of Setup and what it has made.
abbrev pub Mirrors : Sdk → Harness → SetUp × Live → Type 0
Mirrors sdk (built p ems) (r, live) =
    (r ≡ ready p) × (live.emitters ≡ ems) × (clean_up sdk (built p ems) ≡ some (shutdown sdk p))
Mirrors sdk (fatal i stage e) (r, live) =
    ((p : Progress) × (r ≡ given_up i stage e p)) × (clean_up sdk (fatal i stage e) ≡ none)

pub none_fails :
    (create : Signal → List ExporterOption → Option Text) (f : ExporterFactory)
    → ((signal : Signal) (os : List ExporterOption) → create signal os ≡ none)
    → all_exporters create f ≡ none
unfolding all_exporters
none_fails create f h =
    rw
      (
        all_exporters,
        h traces (traces_options f),
        h metrics (metrics_options f),
        h logs (logs_options f),
      )
      refl

module _ {F : Type 0} (parts : Parts) (f : ExporterFactory) (o : Options) (sdk : Sdk)
    (exported : (i : ℕ) (signal : Signal) (os : List ExporterOption)
      → parts.new_exporter i signal os ≡ none)
    (namespace_is : o.namespace ≡ bytes "test")
    (environment_is : o.environment ≡ bytes "test") where
  same_attributes :
      (s : Service F)
      → resource_attributes s o.namespace o.environment
        ≡ resource_attributes s (bytes "test") (bytes "test")
  same_attributes s = λ t. resource_attributes s (namespace_is t) (environment_is t)

  harness_service-build_service :
      (i : ℕ) (s : Service F) → build_service parts f o i s ≡ harness_service parts i s
  unfolding build_service harness_service
  harness_service-build_service i s =
      let no_failure = none_fails (parts.new_exporter i) f (exported i) in
      let attributes = same_attributes s in ground arith

  harness_services-build_services :
      (i : ℕ) (ss : List (Service F)) (p : Providers) (live : Live)
      → Mirrors sdk
          (harness_services parts i ss p live.emitters)
          (build_services parts f o sdk i ss p live)
  unfolding build_services harness_services clean_up
  harness_services-build_services i [] p live = (refl, refl, refl)
  harness_services-build_services i (s ∷ ss) p live =
      rw (build_services, harness_service-build_service i s)
        (elim (harness_service parts i s)
          as (λ a.
            Mirrors sdk
              (elim a [
                | not_started stage e ↦ fatal i stage e
                | orphaned stage e ↦ fatal i stage e
                | added em ↦
                    harness_services parts (suc i) ss (register i s.service_name p)
                      ((s.service_name, em) ∷ live.emitters)
              ])
              (elim a [
                | not_started stage e ↦ (given_up i stage e (shutdown sdk p), live)
                | orphaned stage e ↦ (given_up i stage e (shutdown sdk p), start i live)
                | added em ↦
                    build_services parts f o sdk (suc i) ss (register i s.service_name p)
                      (record (start i live) { emitters = (s.service_name, em) ∷ live.emitters })
              ])) [
                | not_started stage e ↦ ((shutdown sdk p, refl), refl)
                | orphaned stage e ↦ ((shutdown sdk p, refl), refl)
                | added em ↦
                    harness_services-build_services (suc i) ss (register i s.service_name p)
                      (record (start i live) { emitters = (s.service_name, em) ∷ live.emitters })
              ])

-- NewTestHarness against Setup over HTTP, where no exporter's constructor fails and the namespace and
-- the environment are the harness's: it registers the services that Setup registers, with the same
-- emitters, and its clean-up makes the calls of that Setup's Shutdown; and where Setup gives up, the
-- harness ends its test at the same service and the same call, and shuts nothing down.
pub new_test_harness-set_up :
    {F : Type 0} (parts : Parts) (env : Env) (sdk : Sdk) (t : Topology F) (o : Options)
    (f : ExporterFactory)
    → factory_of env o ≡ ok f
    → f.protocol ≡ http
    → ((i : ℕ) (signal : Signal) (os : List ExporterOption) → parts.new_exporter i signal os ≡ none)
    → o.namespace ≡ bytes "test"
    → o.environment ≡ bytes "test"
    → Mirrors sdk (new_test_harness parts t) (set_up parts env sdk t o)
unfolding new_test_harness set_up
new_test_harness-set_up parts env sdk t o f made_by by_http exported namespace_is environment_is =
    rw (set_up, made_by, by_http)
      (harness_services-build_services parts f o sdk exported namespace_is environment_is 0
        t.services (no_providers false) no_live)
