-- ===== src/Tests/Sample.antt =====
-- A small topology document, and whole numbers in place of float64.
use otel_ecom_load_genrator.Prelude.{ℕ, true, false, List, [], ◌∷◌, refl}
use otel_ecom_load_genrator.Prelude.Int.{ℤ, pos, ltb_ℤ, leb_ℤ, eqb_ℤ, ◌+ℤ◌, ◌-ℤ◌, ◌*ℤ◌}
use Prim.Native.String.{String}
use otel_ecom_load_genrator.Prelude.Text.{Text, bytes}
use otel_ecom_load_genrator.Prelude.Float64.{Float64}
use otel_ecom_load_genrator.Config.{
  bool, float64, AttributeSet, Latency, Route, Service, Topology, RootRoute, Surge, File,
}
use otel_ecom_load_genrator.Chaos.{Source, InRange}
use otel_ecom_load_genrator.Chaos.SampleLatency.{Draws, Rounds}
use otel_ecom_load_genrator.Engine.Emission.{SpanDraws, Counters}
use otel_ecom_load_genrator.Telemetry.Endpoint.{Env, Options, Backend, Protocol}

-- Whole numbers meet what the theorems ask of float64; division and logarithms are not needed.
instance abbrev pub whole : Float64 ℤ
whole = record {
  lt = ltb_ℤ;
  le = leb_ℤ;
  eq = eqb_ℤ;
  of_int = λ n. n;
  to_int = λ n. n;
  half = pos 0;
  add = ◌+ℤ◌;
  sub = ◌-ℤ◌;
  mul = ◌*ℤ◌;
  div = λ a b. a;
  log = λ a. a;
  exp = λ a. a;
  max = λ a b. a;
  round = λ a. a;
  trunc = λ a. a;
  is_nan = λ _. false;
  is_inf = λ _. false;
  format = λ _. [];
}

pub whole-Rounds : Rounds ℤ
whole-Rounds = record { whole_round = λ n h. refl; above = λ f n h k. k }

-- The lowest draw, always.
abbrev pub lowest : Source
lowest n = 0

pub lowest-InRange : InRange lowest
lowest-InRange n h = h

abbrev pub latency : Latency ℤ
latency = record { p50 = pos 20; p99 = pos 80; outlier_rate = pos 0; outlier_multiplier = pos 0 }

abbrev pub route : String → String → List (Text × Text) → List (AttributeSet ℤ) → Route ℤ
route name kind calls sets = record {
  route = bytes name;
  span_kind = bytes kind;
  downstream_calls = calls;
  latency = latency;
  attribute_sets = sets;
  event_sets = [];
  metrics = record { business = [] };
}

abbrev pub service : String → List (Route ℤ) → Service ℤ
service name routes = record {
  service_name = bytes name;
  instances = bytes "i-1" ∷ [];
  tier = [];
  attribute_sets = [];
  event_sets = [];
  routes = routes;
}

abbrev pub failing : List (AttributeSet ℤ)
failing =
    record {
      weight = pos 100;
      attributes =
          (bytes "error", bool true) ∷ (bytes "http.response.status_code", float64 (pos 503)) ∷ [];
    }
    ∷ []

abbrev pub root : RootRoute
root = record { service = bytes "web"; route = bytes "GET /"; traces_per_hour = pos 3600 }

abbrev pub surge : Surge ℤ
surge = record {
  every_minutes = pos 10;
  duration_seconds = pos 60;
  multiplier = pos 2;
  routes = bytes "GET /" ∷ [];
}

abbrev pub home : Route ℤ
home = route "GET /" "server" ((bytes "cart", bytes "GET /cart") ∷ []) []

abbrev pub get_cart : Route ℤ
get_cart = route "GET /cart" "server" ((bytes "db", bytes "HGETALL") ∷ []) failing

abbrev pub hgetall : Route ℤ
hgetall = route "HGETALL" "client" [] []

abbrev pub web_service : Service ℤ
web_service = service "web" (home ∷ [])

abbrev pub cart_service : Service ℤ
cart_service = service "cart" (get_cart ∷ [])

abbrev pub db_service : Service ℤ
db_service = service "db" (hgetall ∷ [])

abbrev pub shop_topology : Topology ℤ
shop_topology = record { services = web_service ∷ cart_service ∷ db_service ∷ [] }

abbrev pub shop : File ℤ
shop = record { topology = shop_topology; root_routes = root ∷ []; surges = surge ∷ [] }

-- The same, with a call from db back to web.
abbrev pub looping : File ℤ
looping = record {
  topology = record {
    services =
        service "web" (route "GET /" "server" ((bytes "cart", bytes "GET /cart") ∷ []) [] ∷ [])
        ∷ service "cart" (route "GET /cart" "server" ((bytes "web", bytes "GET /") ∷ []) [] ∷ [])
        ∷ [];
  };
  root_routes = root ∷ [];
  surges = [];
}

abbrev pub latency_draws : Draws ℤ
latency_draws = record { side = pos 0; position = pos 0; outlier = pos 0 }

abbrev pub plan : List ℕ → SpanDraws ℤ
plan _ = record {
  instance_draw = lowest;
  service_attributes = lowest;
  route_attributes = lowest;
  service_events = lowest;
  route_events = lowest;
  latency = latency_draws;
  metric = λ _. pos 0;
}

abbrev pub zeroed : Counters
zeroed = record { traces = 0; spans = 0; error_spans = 0; logs = 0; panics = 0 }

abbrev pub emitters : List Text
emitters = bytes "web" ∷ bytes "cart" ∷ bytes "db" ∷ []

abbrev pub no_env : Env
no_env = record { otlp_endpoint = []; license_key = [] }

abbrev pub options : Backend → Options
options backend = record {
  backend = backend;
  protocol = Protocol.grpc;
  region = bytes "eu";
  namespace = [];
  environment = [];
  endpoint = [];
  endpoint_override = [];
}
