-- ===== src/Tests/ProvidersWitness.antt =====
-- The theorems on Setup and Shutdown with an SDK that fails at one point.
use otel_ecom_load_genrator.Prelude.{ℕ, ◌≡◌, refl, true, none, some, List, [], ◌∷◌}
use otel_ecom_load_genrator.Prelude.Text.{bytes}
use otel_ecom_load_genrator.Telemetry.Endpoint.{local}
use otel_ecom_load_genrator.Telemetry.Providers.{
  Providers, Sdk, metrics, flushing, on, shutdown, Build, ready, setup,
}
use otel_ecom_load_genrator.Telemetry.Providers.Laws.{schedule, shutdown_lem}
use otel_ecom_load_genrator.Tests.Sample.{shop_topology, no_env, options}

-- Every flush of metrics fails.
abbrev pub flaky : Sdk
flaky before (on flushing metrics _) = some (bytes "no route")
flaky before _ = none

abbrev pub quiet : Sdk
quiet before c = none

abbrev all_build : Build
all_build i stage = none

abbrev pub web_only : Providers
web_only = record {
  emitters = bytes "web" ∷ [];
  trace_providers = 0 ∷ [];
  metric_providers = 0 ∷ [];
  log_providers = 0 ∷ [];
  conn = true;
}

shutdown_lem_example :
    shutdown flaky web_only
    ≡ record { calls = schedule web_only; errors = (on flushing metrics 0, bytes "no route") ∷ [] }
shutdown_lem_example = shutdown_lem flaky web_only

abbrev three : List ℕ
three = 0 ∷ 1 ∷ 2 ∷ []

abbrev pub shop_providers : Providers
shop_providers = record {
  emitters = bytes "db" ∷ bytes "cart" ∷ bytes "web" ∷ [];
  trace_providers = three;
  metric_providers = three;
  log_providers = three;
  conn = true;
}

gets_ready : setup no_env none all_build quiet shop_topology (options local) ≡ ready shop_providers
unfolding setup
gets_ready = refl
