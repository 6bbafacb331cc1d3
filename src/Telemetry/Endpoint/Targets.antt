-- ===== src/Telemetry/Endpoint/Targets.antt =====
-- Where telemetry goes: the two transports agree on an endpoint with a scheme, and the sources of
-- the endpoint take effect in their documented order.
use otel_ecom_load_genrator.Prelude.{
  ℕ, ap, ◌∙◌, ◌≡◌, ◌≢◌, refl, Bool, true, false, not, none, some, List, [], ◌∷◌, ◌++◌, arith,
}
use otel_ecom_load_genrator.Prelude.Text.{
  Text, bytes, text_eq, text_eq_iff, before_byte, strip_prefix, Lacks,
}
use otel_ecom_load_genrator.Telemetry.Endpoint.{
  Backend, otlp, is_local, Protocol, grpc, http, Env, Options, sdk_default, describe_endpoint,
  new_relic_us_host, default_port_for, Result, ok, err, scheme_http, scheme_https, url,
  split_scheme, effective_endpoint, backend_endpoint, resolve_endpoint, grpc_endpoint, target_of,
  grpc_target, host_port,
}

before_byte-nil : (c : ℕ) → before_byte c [] ≡ []
unfolding before_byte
before_byte-nil c = refl

backend_endpoint-ne-nil : (o : Options) → o.backend ≢ otlp → backend_endpoint o ≢ ok []
unfolding backend_endpoint url
backend_endpoint-ne-nil o other h = ground arith

-- For an endpoint with a scheme and a host, gRPC dials the host that the HTTP exporters use; http://
-- is plaintext for both, and https:// is TLS for gRPC, while the HTTP exporters keep the plaintext
-- choice of the backend.
pub target_of-host_port :
    (backend : Backend) (insecure : Bool) (rest : Text)
    → before_byte b'/' rest ≢ []
    → (target_of backend (scheme_http ++ rest) ≡ (before_byte b'/' rest, false))
      × (host_port insecure (scheme_http ++ rest) ≡ some (before_byte b'/' rest, true))
      × (target_of backend (scheme_https ++ rest) ≡ (before_byte b'/' rest, true))
      × (host_port insecure (scheme_https ++ rest) ≡ some (before_byte b'/' rest, insecure))
unfolding target_of host_port
target_of-host_port backend insecure rest some_host =
    let host : text_eq (before_byte b'/' rest) [] ≡ false =
      ground (arith, text_eq_iff (before_byte b'/' rest) []) in
    (refl, rw host refl, refl, rw host refl)

-- A text whose part before the first slash is something else does not start with the scheme.
strip_prefix-other :
    (word behind host path : Text)
    → Lacks b'/' word
    → Lacks b'/' host
    → host ≢ word
    → strip_prefix (word ++ b'/' ∷ behind) (host ++ b'/' ∷ path) ≡ none
unfolding strip_prefix
strip_prefix-other [] behind [] path lw lh other = absurd (other refl)
strip_prefix-other [] behind (c ∷ host) path lw lh other = ground arith
strip_prefix-other (w ∷ word) behind [] path lw lh other = ground arith
strip_prefix-other (w ∷ word) behind (c ∷ host) path lw lh other =
    ground (arith, strip_prefix-other word behind host path lw.1 lh.1)

before_byte-append : (sep : ℕ) (s rest : Text) → Lacks sep s → before_byte sep (s ++ sep ∷ rest) ≡ s
unfolding before_byte
before_byte-append sep [] rest h = ground arith
before_byte-append sep (c ∷ s) rest h = ground (arith, before_byte-append sep s rest)

-- An endpoint "<host>/<path>" without a scheme is dialled by gRPC with its path, while the HTTP exporters
-- are given the host alone; TLS is used exactly by the backends other than local, by both.
pub target_of-host_port_bare :
    (backend : Backend) (host path : Text)
    → Lacks b'/' host
    → (host ≢ []) × (host ≢ bytes "http:") × (host ≢ bytes "https:")
    → (target_of backend (host ++ b'/' ∷ path) ≡ (host ++ b'/' ∷ path, not (is_local backend)))
      × (host_port (is_local backend) (host ++ b'/' ∷ path) ≡ some (host, is_local backend))
unfolding target_of host_port split_scheme
target_of-host_port_bare backend host path lacks (present, not_http, not_https) =
    let plain : strip_prefix scheme_http (host ++ b'/' ∷ path) ≡ none =
      strip_prefix-other (bytes "http:") (bytes "/") host path (ground arith) lacks not_http in
    let secure : strip_prefix scheme_https (host ++ b'/' ∷ path) ≡ none =
      strip_prefix-other (bytes "https:") (bytes "/") host path (ground arith) lacks not_https in
    let cut_at = before_byte-append b'/' host path lacks in
    let some_host : text_eq host [] ≡ false = ground (arith, text_eq_iff host []) in
    let some_text : text_eq (host ++ b'/' ∷ path) [] ≡ false =
      ground (arith, text_eq_iff (host ++ b'/' ∷ path) [], before_byte-nil b'/') in
    let split : split_scheme (is_local backend) (host ++ b'/' ∷ path)
        ≡ (host ++ b'/' ∷ path, is_local backend) =
      ground arith in
    (ground arith, rw (host_port, some_text, split, cut_at, some_host) refl)

-- The first of the sources that is set.
abbrev pub first_set : List Text → Text
first_set [] = []
first_set ([] ∷ rest) = first_set rest
first_set ((c ∷ s) ∷ rest) = c ∷ s

abbrev pub backend_default : Result Text → Text
backend_default (ok ep) = ep
backend_default (err _) = []

-- For a backend with a default, gRPC dials the first that is set of --endpoint, the test override,
-- the environment variable and the backend's default, once resolveEndpoint has succeeded.
pub grpc_endpoint-resolve_endpoint :
    (env : Env) (o : Options) (given : Text)
    → o.backend ≢ otlp
    → resolve_endpoint env o ≡ ok given
    → grpc_endpoint env o given
      ≡ first_set (
          o.endpoint
          ∷ o.endpoint_override
          ∷ env.otlp_endpoint
          ∷ backend_default (backend_endpoint o)
          ∷ [])
unfolding resolve_endpoint grpc_endpoint
grpc_endpoint-resolve_endpoint env o given other h = ground (
  arith,
  text_eq_iff o.endpoint [],
  text_eq_iff o.endpoint_override [],
  text_eq_iff env.otlp_endpoint [],
  text_eq_iff given [],
  backend_endpoint-ne-nil o,
)

target_of-us_host :
    (backend : Backend) (p : Protocol)
    → target_of backend (url scheme_https new_relic_us_host (default_port_for p))
      ≡ (new_relic_us_host ++ (bytes ":" ++ default_port_for p), true)
unfolding target_of url default_port_for
target_of-us_host backend grpc = refl
target_of-us_host backend http = refl

-- With --backend otlp and no endpoint from anywhere, the start-up log says that the SDK's default is
-- used, while gRPC dials the New Relic host with TLS.
pub grpc_target-otlp :
    (env : Env) (o : Options)
    → o.backend ≡ otlp
    → (o.endpoint ≡ []) × (o.endpoint_override ≡ []) × (env.otlp_endpoint ≡ [])
    → (resolve_endpoint env o ≡ ok [])
      × (describe_endpoint env o ≡ sdk_default)
      × (grpc_target env [] o
          ≡ (new_relic_us_host ++ (bytes ":" ++ default_port_for o.protocol), true))
unfolding resolve_endpoint describe_endpoint grpc_endpoint
grpc_target-otlp env o other unset =
    let no_endpoint : effective_endpoint o ≡ [] = ground (arith, text_eq_iff o.endpoint []) in
    let dialled : grpc_endpoint env o []
        ≡ url scheme_https new_relic_us_host (default_port_for o.protocol) =
      ground (arith, text_eq_iff env.otlp_endpoint []) in
    (
      ground (arith, text_eq_iff (effective_endpoint o) [], text_eq_iff env.otlp_endpoint []),
      ground (arith, text_eq_iff (effective_endpoint o) [], text_eq_iff env.otlp_endpoint []),
      unfold grpc_target in
          (ap (target_of o.backend) dialled ∙ target_of-us_host o.backend o.protocol),
    )
