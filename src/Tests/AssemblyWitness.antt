-- ===== src/Tests/AssemblyWitness.antt =====
-- The theorems on Setup with all its calls, where one instrument of the second service fails.
use otel_ecom_load_genrator.Prelude.{[], zero, suc, ◌≡◌, refl, false, none, some, ◌∷◌}
use otel_ecom_load_genrator.Prelude.Text.{bytes, text_eq, strip_prefix}
use otel_ecom_load_genrator.Telemetry.Endpoint.{
  Env, Options, local, new_relic, http, ok, scheme_http, grpc_target,
}
use otel_ecom_load_genrator.Telemetry.Exporters.{
  ExporterFactory, factory_of, traces_options, metrics_options, logs_options,
}
use otel_ecom_load_genrator.Telemetry.Providers.{
  Op, Signal, error_counter, given_up, setup, shutdown,
}
use otel_ecom_load_genrator.Telemetry.Providers.Started.{upto}
use otel_ecom_load_genrator.Telemetry.Emitter.{Meter}
use otel_ecom_load_genrator.Telemetry.Assembly.{Parts, tls, dial_grpc, set_up}
use otel_ecom_load_genrator.Telemetry.Assembly.Secure.{asks_plaintext, factory_of-secure}
use otel_ecom_load_genrator.Telemetry.Assembly.Refines.{dial_of, build_of, set_up-setup}
use otel_ecom_load_genrator.Telemetry.Assembly.Orphans.{reached, set_up_orphans}
use otel_ecom_load_genrator.Tests.Sample.{shop_topology, no_env, options}
use otel_ecom_load_genrator.Tests.ProvidersWitness.{flaky, web_only}

-- Refuses the third instrument.
abbrev grudging : Meter
grudging (_ ∷ _ ∷ _) r = some (bytes "bad name")
grudging _ r = none

abbrev pub parts : Parts
parts = record {
  new_resource = λ i attributes. none;
  new_client = λ target transport. none;
  new_exporter = λ i signal os. none;
  meter = λ i. elim i [ zero ↦ λ before r. none | suc _ ↦ grudging ];
}

set_up-setup_example :
    (set_up parts no_env flaky shop_topology (options local)).0
    ≡ setup no_env
        (dial_of parts no_env flaky shop_topology (options local))
        (build_of parts no_env flaky shop_topology (options local))
        flaky
        shop_topology
        (options local)
set_up-setup_example = set_up-setup parts no_env flaky shop_topology (options local)

gives_up :
    (set_up parts no_env flaky shop_topology (options local)).0
    ≡ given_up 1 error_counter (bytes "bad name") (shutdown flaky web_only)
unfolding set_up text_eq
gives_up = refl

set_up_orphans_example :
    ((set_up parts no_env flaky shop_topology (options local)).1.started ≡ upto 2)
    × ((op : Op) (signal : Signal) → reached op signal (shutdown flaky web_only).calls ≡ upto 1)
set_up_orphans_example =
    set_up_orphans parts no_env flaky shop_topology (options local) 1 error_counter
      (bytes "bad name") (shutdown flaky web_only) gives_up

abbrev keyed_env : Env
keyed_env = record { otlp_endpoint = []; license_key = bytes "k" }

abbrev by_http : Options
by_http = record (options new_relic) { protocol = http }

abbrev keyed_factory : ExporterFactory
keyed_factory = record {
  protocol = http;
  headers_given = (bytes "api-key", bytes "k") ∷ [];
  endpoint_url = bytes "https://otlp.eu01.nr-data.net:4318";
  insecure = false;
}

keyed-made : factory_of keyed_env by_http ≡ ok keyed_factory
unfolding factory_of text_eq
keyed-made = refl

no-http :
    (strip_prefix scheme_http keyed_factory.endpoint_url ≡ none)
    × (strip_prefix scheme_http keyed_env.otlp_endpoint ≡ none)
unfolding strip_prefix
no-http = (refl, refl)

factory_of-secure_example :
    (asks_plaintext (traces_options keyed_factory) ≡ false)
    × (asks_plaintext (metrics_options keyed_factory) ≡ false)
    × (asks_plaintext (logs_options keyed_factory) ≡ false)
    × (dial_grpc parts keyed_env keyed_factory.endpoint_url by_http
        ≡ parts.new_client (grpc_target keyed_env keyed_factory.endpoint_url by_http).0 tls)
factory_of-secure_example =
    factory_of-secure parts keyed_env by_http keyed_factory keyed-made (λ e. cc) no-http.0 no-http.1
