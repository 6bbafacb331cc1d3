-- ===== src/Telemetry/Assembly/Secure.antt =====
-- Where the license key goes.
use otel_ecom_load_genrator.Prelude.{
  ◌≡◌, ◌≢◌, refl, ap, ◌∙◌, Bool, true, false, Option, none, some, List, [], ◌∷◌, ◌++◌, arith,
}
use otel_ecom_load_genrator.Prelude.Text.{Text, strip_prefix}
use otel_ecom_load_genrator.Telemetry.Endpoint.{
  Env, Options, ok, Backend, Protocol, grpc, http, url, default_port_for, new_relic_us_host,
  is_local, headers, scheme_http, scheme_https, split_scheme, host_port, target_of, grpc_endpoint,
  grpc_target,
}
use otel_ecom_load_genrator.Telemetry.Exporters.{
  ExporterOption, plaintext, ExporterFactory, host_options, header_options, traces_options,
  metrics_options, logs_options, factory_of,
}
use otel_ecom_load_genrator.Telemetry.Assembly.{Parts, tls, dial_grpc}

-- Only the New Relic backend has headers, and its factory never forces plaintext.
factory_of-keyed :
    (env : Env) (o : Options) (f : ExporterFactory)
    → factory_of env o ≡ ok f
    → f.headers_given ≢ []
    → (f.insecure ≡ false) × (is_local o.backend ≡ false)
unfolding factory_of headers
factory_of-keyed env o f made keyed = ground arith

split_scheme-keyed :
    (endpoint : Text)
    → strip_prefix scheme_http endpoint ≡ none
    → (split_scheme false endpoint).1 ≡ false
unfolding split_scheme
split_scheme-keyed endpoint h = ground arith

target_of-tls :
    (backend : Backend) (endpoint : Text)
    → is_local backend ≡ false
    → strip_prefix scheme_http endpoint ≡ none
    → (target_of backend endpoint).1 ≡ true
unfolding target_of
target_of-tls backend endpoint remote h = ground arith

abbrev is_plain : Option (Text × Bool) → Bool
is_plain none = false
is_plain (some (host, plain)) = plain

host_port-tls :
    (endpoint : Text)
    → strip_prefix scheme_http endpoint ≡ none
    → is_plain (host_port false endpoint) ≡ false
unfolding host_port
host_port-tls endpoint h = let plain = split_scheme-keyed endpoint h in ground arith

-- Whether WithInsecure is among the options.
abbrev pub asks_plaintext : List ExporterOption → Bool
asks_plaintext [] = false
asks_plaintext (plaintext ∷ os) = true
asks_plaintext (_ ∷ os) = asks_plaintext os

asks_plaintext-host_options :
    (destination : Option (Text × Bool)) (hs : List (Text × Text))
    → asks_plaintext (host_options destination ++ header_options hs) ≡ is_plain destination
asks_plaintext-host_options none [] = refl
asks_plaintext-host_options none (x ∷ xs) = refl
asks_plaintext-host_options (some (host, true)) hs = refl
asks_plaintext-host_options (some (host, false)) [] = refl
asks_plaintext-host_options (some (host, false)) (x ∷ xs) = refl

abbrev AllSecure : ExporterFactory → Type 0
AllSecure f =
    (asks_plaintext (traces_options f) ≡ false)
    × (asks_plaintext (metrics_options f) ≡ false)
    × (asks_plaintext (logs_options f) ≡ false)

options-AllSecure :
    (f : ExporterFactory) (protocol : Protocol)
    → f.protocol ≡ protocol
    → is_plain (host_port f.insecure f.endpoint_url) ≡ false
    → AllSecure f
unfolding traces_options metrics_options logs_options
options-AllSecure f http e h =
    let base =
      asks_plaintext-host_options (host_port f.insecure f.endpoint_url) f.headers_given ∙ h in
    rw (e, traces_options, metrics_options, logs_options) (base, base, base)
options-AllSecure f grpc e h =
    rw (e, traces_options, metrics_options, logs_options) (refl, refl, refl)

https_url : (host port : Text) → strip_prefix scheme_http (url scheme_https host port) ≡ none
unfolding strip_prefix url
https_url host port = refl

grpc_endpoint-tls :
    (env : Env) (o : Options) (endpoint : Text)
    → is_local o.backend ≡ false
    → strip_prefix scheme_http endpoint ≡ none
    → strip_prefix scheme_http env.otlp_endpoint ≡ none
    → strip_prefix scheme_http (grpc_endpoint env o endpoint) ≡ none
unfolding grpc_endpoint
grpc_endpoint-tls env o endpoint remote given in_env =
    ground (arith, https_url new_relic_us_host (default_port_for o.protocol))

-- Where the factory has headers, which carry the license key, and neither its endpoint nor the
-- environment's begins with http://, none of the three exporters is given the option WithInsecure,
-- and the gRPC connection is made with TLS credentials.
pub factory_of-secure :
    (parts : Parts) (env : Env) (o : Options) (f : ExporterFactory)
    → factory_of env o ≡ ok f
    → f.headers_given ≢ []
    → strip_prefix scheme_http f.endpoint_url ≡ none
    → strip_prefix scheme_http env.otlp_endpoint ≡ none
    → (asks_plaintext (traces_options f) ≡ false)
      × (asks_plaintext (metrics_options f) ≡ false)
      × (asks_plaintext (logs_options f) ≡ false)
      × (dial_grpc parts env f.endpoint_url o
          ≡ parts.new_client (grpc_target env f.endpoint_url o).0 tls)
unfolding dial_grpc grpc_target
factory_of-secure parts env o f made keyed given in_env =
    let (forced, remote) = factory_of-keyed env o f made keyed in
    let (traces, metrics, logs) = options-AllSecure f f.protocol refl (
      ap (λ b. is_plain (host_port b f.endpoint_url)) forced
      ∙ host_port-tls f.endpoint_url given) in
    let dialled =
      target_of-tls o.backend (grpc_endpoint env o f.endpoint_url) remote
        (grpc_endpoint-tls env o f.endpoint_url remote given in_env) in
    (traces, metrics, logs, ground arith)
