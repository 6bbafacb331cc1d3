-- ===== src/Telemetry/Endpoint.antt =====
-- internal/telemetry/backend.go, and hostPort of internal/telemetry/exporters.go. The environment
-- variables that are read are an argument.
pub mod Targets
pub mod Parsing
use otel_ecom_load_genrator.Prelude.{
  ◌≡◌, Bool, true, false, not, ◌||◌, Option, none, some, List, [], ◌∷◌, ◌++◌, if◌then◌else◌,
}
use otel_ecom_load_genrator.Prelude.Text.{
  Text, bytes, text_eq, to_lower, trim_space, before_byte, strip_prefix,
}

pub data Backend : Type 0 where
  new_relic otlp local : Backend

pub data Protocol : Type 0 where
  grpc http : Protocol

abbrev pub is_local : Backend → Bool
is_local local = true
is_local _ = false

-- os.Getenv of the two variables; an unset variable reads as "".
pub record Env : Type 0 where
  pub otlp_endpoint : Text
  pub license_key : Text

pub record Options : Type 0 where
  pub backend : Backend
  pub protocol : Protocol
  pub region : Text
  pub namespace : Text
  pub environment : Text
  pub endpoint : Text
  pub endpoint_override : Text

pub data Fault : Type 0 where
  unknown_protocol unknown_backend unknown_region : Text → Fault
  no_license_key : Fault

pub data Result (A : Type 0) : Type 0 where
  ok : A → Result A
  err : Fault → Result A

unfoldable pub parse_protocol : Text → Result Protocol
unfolding to_lower trim_space text_eq
parse_protocol s =
    let word = to_lower (trim_space s) in
    if text_eq word (bytes "grpc")
    then ok grpc
    else if text_eq word (bytes "http") || text_eq word (bytes "http/protobuf")
    then ok http
    else err (unknown_protocol s)

unfoldable pub parse_backend : Text → Result Backend
unfolding to_lower trim_space text_eq
parse_backend s =
    let word = to_lower (trim_space s) in
    if text_eq word (bytes "newrelic")
    then ok new_relic
    else if text_eq word (bytes "otlp")
    then ok otlp
    else if text_eq word (bytes "local")
    then ok local
    else err (unknown_backend s)

unfoldable pub default_port_for : Protocol → Text
default_port_for http = bytes "4318"
default_port_for grpc = bytes "4317"

abbrev pub new_relic_us_host : Text
new_relic_us_host = bytes "staging-otlp.nr-data.net"

abbrev pub new_relic_eu_host : Text
new_relic_eu_host = bytes "otlp.eu01.nr-data.net"

abbrev pub local_host : Text
local_host = bytes "localhost"

abbrev pub scheme_http : Text
scheme_http = bytes "http://"

abbrev pub scheme_https : Text
scheme_https = bytes "https://"

unfoldable pub effective_endpoint : Options → Text
unfolding text_eq
effective_endpoint o = if not (text_eq o.endpoint []) then o.endpoint else o.endpoint_override

-- scheme + host + ":" + port
unfoldable pub url : Text → Text → Text → Text
url scheme host port = scheme ++ (host ++ (bytes ":" ++ port))

unfoldable pub backend_endpoint : Options → Result Text
unfolding to_lower text_eq url default_port_for
backend_endpoint o = elim o.backend [
  | new_relic ↦
      if text_eq (to_lower o.region) [] || text_eq (to_lower o.region) (bytes "us")
      then ok (url scheme_https new_relic_us_host (default_port_for o.protocol))
      else if text_eq (to_lower o.region) (bytes "eu")
      then ok (url scheme_https new_relic_eu_host (default_port_for o.protocol))
      else err (unknown_region o.region)
  | local ↦ ok (url scheme_http local_host (default_port_for o.protocol))
  | otlp ↦ ok []
]

-- "" lets the SDK read the environment variable.
unfoldable pub resolve_endpoint : Env → Options → Result Text
unfolding effective_endpoint backend_endpoint
resolve_endpoint env o =
    if not (text_eq (effective_endpoint o) [])
    then ok (effective_endpoint o)
    else if not (text_eq env.otlp_endpoint [])
    then ok []
    else backend_endpoint o

-- The message of DescribeEndpoint, as the values it is made of.
pub data Description : Type 0 where
  by_flag by_env : Text → Description
  unresolved : Fault → Description
  sdk_default : Description
  by_backend : Text → Backend → Description

unfoldable pub describe_resolved : Backend → Result Text → Description
unfolding text_eq
describe_resolved backend (err e) = unresolved e
describe_resolved backend (ok ep) = if text_eq ep [] then sdk_default else by_backend ep backend

unfoldable pub describe_endpoint : Env → Options → Description
unfolding resolve_endpoint describe_resolved
describe_endpoint env o =
    if not (text_eq (effective_endpoint o) [])
    then by_flag (effective_endpoint o)
    else if not (text_eq env.otlp_endpoint [])
    then by_env env.otlp_endpoint
    else describe_resolved o.backend (resolve_endpoint env o)

-- The first of the three sources that is set, in the order that the function tries them.
unfoldable pub grpc_endpoint : Env → Options → Text → Text
unfolding text_eq url default_port_for
grpc_endpoint env o endpoint =
    let given = if text_eq endpoint [] then env.otlp_endpoint else endpoint in
    if not (text_eq given [])
    then given
    else if is_local o.backend
    then url scheme_http local_host (default_port_for o.protocol)
    else url scheme_https new_relic_us_host (default_port_for o.protocol)

-- The dial target, and whether TLS is used.
unfoldable pub target_of : Backend → Text → Text × Bool
unfolding strip_prefix before_byte
target_of backend endpoint = elim (strip_prefix scheme_http endpoint) [
  | some rest ↦ (before_byte b'/' rest, false)
  | none ↦ elim (strip_prefix scheme_https endpoint) [
    | some rest ↦ (before_byte b'/' rest, true)
    | none ↦ (endpoint, not (is_local backend))
  ]
]

unfoldable pub grpc_target : Env → Text → Options → Text × Bool
unfolding grpc_endpoint target_of
grpc_target env endpoint o = target_of o.backend (grpc_endpoint env o endpoint)

-- The `api-key` header, and nil for the other backends.
unfoldable pub headers : Env → Options → Result (List (Text × Text))
unfolding text_eq
headers env o = elim o.backend [
  | new_relic ↦
      if text_eq env.license_key []
      then err no_license_key
      else ok ((bytes "api-key", env.license_key) ∷ [])
  | _ ↦ ok []
]

-- exporterFactory.hostPort: the host without scheme and path, and whether it is plaintext.
unfoldable pub split_scheme : Bool → Text → Text × Bool
unfolding strip_prefix
split_scheme insecure endpoint = elim (strip_prefix scheme_http endpoint) [
  | some rest ↦ (rest, true)
  | none ↦ elim (strip_prefix scheme_https endpoint) [
    | some rest ↦ (rest, insecure)
    | none ↦ (endpoint, insecure)
  ]
]

unfoldable pub host_port : Bool → Text → Option (Text × Bool)
unfolding split_scheme before_byte text_eq
host_port insecure endpoint =
    if text_eq endpoint []
    then none
    else (let (trimmed, plain) = split_scheme insecure endpoint in
        if text_eq (before_byte b'/' trimmed) []
        then none
        else some (before_byte b'/' trimmed, plain))
