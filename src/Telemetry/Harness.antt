-- ===== src/Telemetry/Harness.antt =====
-- internal/telemetry/testing.go: the providers and emitters that the tests use, and the names of the
-- metrics that they collect. What the reader collects is a parameter, the metrics' names by scope.
pub mod SameSetup
pub mod Names
use otel_ecom_load_genrator.Prelude.{
  ℕ, zero, suc, ◌≡◌, refl, sym, ap, ◌∙◌, Bool, Bool-cases, subst, true, false, Option, none, some,
  List, [], ◌∷◌, Mem, ◌⊎◌, inl, inr, ◌↔◌, if◌then◌else◌, arith,
}
use otel_ecom_load_genrator.Prelude.Text.{Text, bytes, contains, contains_iff}
use otel_ecom_load_genrator.Config.{Service, Topology}
use otel_ecom_load_genrator.Telemetry.Endpoint.{Env, Options, ok, http}
use otel_ecom_load_genrator.Telemetry.Exporters.{
  ExporterFactory, ExporterOption, all_exporters, factory_of, traces_options, metrics_options,
  logs_options,
}
use otel_ecom_load_genrator.Telemetry.Providers.{
  Signal, traces, metrics, logs, Stage, resource, Providers, no_providers, register, Sdk, Progress,
  shutdown, SetUp, ready, given_up,
}
use otel_ecom_load_genrator.Telemetry.Emitter.{Emitter, Made, made, failed, new_emitter}
use otel_ecom_load_genrator.Telemetry.Assembly.{
  Parts, Added, not_started, orphaned, added, instrument_stage, resource_attributes, build_service,
  Live, no_live, start, build_services, set_up,
}

-- NewTestHarness returns, or ends its test (t.Fatalf) at the service of this index.
pub data Harness : Type 0 where
  built : Providers → List (Text × Emitter) → Harness
  fatal : ℕ → Stage → Text → Harness

module _ {F : Type 0} where
  -- One turn of the loop: the emitter of a service, or the call that fails.
  unfoldable pub harness_service : Parts → ℕ → Service F → Added
  unfolding resource_attributes new_emitter
  harness_service parts i s =
      elim (parts.new_resource i (resource_attributes s (bytes "test") (bytes "test"))) [
        | some e ↦ not_started resource e
        | none ↦ elim (new_emitter (parts.meter i)) [
          | failed r e ↦ orphaned (instrument_stage r) e
          | made em ↦ added em
        ]
      ]

  unfoldable pub harness_services :
      Parts → ℕ → List (Service F) → Providers → List (Text × Emitter) → Harness
  unfolding harness_service register
  harness_services parts i [] p ems = built p ems
  harness_services parts i (s ∷ ss) p ems = elim (harness_service parts i s) [
    | not_started stage e ↦ fatal i stage e
    | orphaned stage e ↦ fatal i stage e
    | added em ↦
        harness_services parts (suc i) ss (register i s.service_name p) ((s.service_name, em) ∷ ems)
  ]

  unfoldable pub new_test_harness : Parts → Topology F → Harness
  unfolding harness_services
  new_test_harness parts t = harness_services parts 0 t.services (no_providers false) []

-- What t.Cleanup calls when the test ends; t.Fatalf stops NewTestHarness before it registers it.
unfoldable pub clean_up : Sdk → Harness → Option Progress
unfolding shutdown
clean_up sdk (built p ems) = some (shutdown sdk p)
clean_up sdk (fatal i stage e) = none

-- ManualReader.Collect.
pub data Collected : Type 0 where
  gathered : List (List Text) → Collected
  not_collected : Text → Collected

-- out[m.Name] = true
abbrev pub add_name : Text → List Text → List Text
add_name name out = if contains name out then out else name ∷ out

unfoldable pub add_names : List Text → List Text → List Text
unfolding contains
add_names [] out = out
add_names (name ∷ names) out = add_names names (add_name name out)

unfoldable pub scope_names : List (List Text) → List Text → List Text
unfolding add_names
scope_names [] out = out
scope_names (names ∷ scopes) out = scope_names scopes (add_names names out)

-- CollectMetricNames; none where CollectMetrics ends the test.
unfoldable pub collect_metric_names : Collected → Option (List Text)
unfolding scope_names
collect_metric_names (gathered scopes) = some (scope_names scopes [])
collect_metric_names (not_collected e) = none
