-- ===== src/Telemetry/Endpoint/Parsing.antt =====
-- Which words the two flags accept.
use otel_ecom_load_genrator.Prelude.{◌≡◌, ◌↔◌, arith, List, [], ◌∷◌, Mem}
use otel_ecom_load_genrator.Prelude.Text.{Text, bytes, text_eq_iff, to_lower, trim_space}
use otel_ecom_load_genrator.Telemetry.Endpoint.{
  Backend, new_relic, otlp, local, Protocol, grpc, http, ok, parse_backend, parse_protocol,
}

-- The string constants of the backends and of the protocols.
abbrev pub backend_name : Backend → Text
backend_name new_relic = bytes "newrelic"
backend_name otlp = bytes "otlp"
backend_name local = bytes "local"

abbrev pub protocol_names : Protocol → List Text
protocol_names grpc = bytes "grpc" ∷ []
protocol_names http = bytes "http" ∷ bytes "http/protobuf" ∷ []

-- ParseBackend returns a backend exactly for its name, in any case and with white space around it, so
-- that a backend's name is read back as that backend.
pub parse_backend_iff :
    (s : Text) (b : Backend) → (parse_backend s ≡ ok b) ↔ (to_lower (trim_space s) ≡ backend_name b)
unfolding parse_backend
parse_backend_iff s new_relic = grind (arith, text_eq_iff)
parse_backend_iff s otlp = grind (arith, text_eq_iff)
parse_backend_iff s local = grind (arith, text_eq_iff)

-- ParseProtocol returns a protocol exactly for one of its names, likewise.
pub parse_protocol_iff :
    (s : Text) (p : Protocol)
    → (parse_protocol s ≡ ok p) ↔ Mem (to_lower (trim_space s)) (protocol_names p)
unfolding parse_protocol
parse_protocol_iff s grpc = grind (arith, text_eq_iff)
parse_protocol_iff s http = grind (arith, text_eq_iff)
