-- ===== src/Tests/TelemetryWitness.antt =====
-- The theorems on the exporters at concrete options and attributes.
use otel_ecom_load_genrator.Prelude.{
  ◌≡◌, ◌≢◌, ◌↔◌, refl, true, false, some, [], ◌∷◌, ◌++◌, Mem, arith,
}
use otel_ecom_load_genrator.Prelude.Int.{ℤ}
use otel_ecom_load_genrator.Prelude.Text.{bytes, before_byte}
use otel_ecom_load_genrator.Config.{string, bool, null, nil, cons, Attributes}
use otel_ecom_load_genrator.Telemetry.Attributes.{
  KeyValue, AttributeValue, of_string, convert_attributes, convert_slice,
}
use otel_ecom_load_genrator.Telemetry.Attributes.Slices.{IsSliceOf, convert_slice-IsSliceOf}
use otel_ecom_load_genrator.Telemetry.Attributes.Laws.{Exports, convert_attributes_iff}
use otel_ecom_load_genrator.Telemetry.Endpoint.{
  local, otlp, new_relic, default_port_for, resolve_endpoint, grpc_endpoint, grpc_target, target_of,
  host_port, scheme_http, scheme_https, sdk_default, describe_endpoint, ok, backend_endpoint,
}
use otel_ecom_load_genrator.Telemetry.Endpoint.Targets.{
  first_set, backend_default, target_of-host_port, target_of-host_port_bare,
  grpc_endpoint-resolve_endpoint, grpc_target-otlp,
}
use otel_ecom_load_genrator.Tests.Sample.{whole, no_env, options}

abbrev attributes : Attributes ℤ
attributes =
    (bytes "error", string (bytes "yes"))
    ∷ (bytes "tier", string (bytes "gold"))
    ∷ (bytes "note", null)
    ∷ []

abbrev tier : KeyValue ℤ
tier = record { key = bytes "tier"; value = of_string (bytes "gold") }

convert_attributes_iff_example : Mem tier (convert_attributes attributes) ↔ Exports attributes tier
convert_attributes_iff_example = convert_attributes_iff attributes tier

bare_host : before_byte b'/' (bytes "h:1/v") ≢ []
unfolding before_byte
bare_host = λ e. cc

target_of-host_port_example :
    (target_of local (scheme_http ++ bytes "h:1/v") ≡ (before_byte b'/' (bytes "h:1/v"), false))
    × (host_port true (scheme_http ++ bytes "h:1/v")
        ≡ some (before_byte b'/' (bytes "h:1/v"), true))
    × (target_of local (scheme_https ++ bytes "h:1/v") ≡ (before_byte b'/' (bytes "h:1/v"), true))
    × (host_port true (scheme_https ++ bytes "h:1/v")
        ≡ some (before_byte b'/' (bytes "h:1/v"), true))
target_of-host_port_example = target_of-host_port local true (bytes "h:1/v") bare_host

target_of-host_port_bare_example :
    (target_of otlp (bytes "h:1/v") ≡ (bytes "h:1/v", true))
    × (host_port false (bytes "h:1/v") ≡ some (bytes "h:1", false))
target_of-host_port_bare_example =
    target_of-host_port_bare otlp (bytes "h:1") (bytes "v") (ground arith)
      (λ e. cc, λ e. cc, λ e. cc)

eu-resolved :
    resolve_endpoint no_env (options new_relic) ≡ ok (bytes "https://otlp.eu01.nr-data.net:4317")
unfolding resolve_endpoint
eu-resolved = refl

grpc_endpoint-resolve_endpoint_example :
    grpc_endpoint no_env (options new_relic) (bytes "https://otlp.eu01.nr-data.net:4317")
    ≡ first_set ([] ∷ [] ∷ [] ∷ backend_default (backend_endpoint (options new_relic)) ∷ [])
grpc_endpoint-resolve_endpoint_example =
    grpc_endpoint-resolve_endpoint no_env (options new_relic)
      (bytes "https://otlp.eu01.nr-data.net:4317") (λ e. cc) eu-resolved

grpc_target-otlp_example :
    (resolve_endpoint no_env (options otlp) ≡ ok [])
    × (describe_endpoint no_env (options otlp) ≡ sdk_default)
    × (grpc_target no_env [] (options otlp) ≡ (bytes "staging-otlp.nr-data.net:4317", true))
unfolding default_port_for
grpc_target-otlp_example = grpc_target-otlp no_env (options otlp) refl (refl, refl, refl)

-- A mixed array.
convert_slice-IsSliceOf_example :
    (out : AttributeValue ℤ) × (convert_slice (cons (bool true) (cons (string (bytes "x")) nil))
      ≡ some out)
    × IsSliceOf (cons (bool true) (cons (string (bytes "x")) nil)) out
convert_slice-IsSliceOf_example =
    convert_slice-IsSliceOf (bool true) (cons (string (bytes "x")) nil)
