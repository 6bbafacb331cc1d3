-- ===== src/Tests/Runs.antt =====
-- Runs of the model on the sample documents.
use otel_ecom_load_genrator.Prelude.{Option, none, some, [], ◌∷◌, ◌≡◌, refl}
use otel_ecom_load_genrator.Prelude.Int.{ℤ, pos, negsuc, wrap64, ◌+ℤ◌, ◌-ℤ◌, ◌*ℤ◌}
use otel_ecom_load_genrator.Prelude.Text.{bytes}
use otel_ecom_load_genrator.Validate.{validate_with_warnings, validate}
use otel_ecom_load_genrator.Validate.Verdict.{Node, ◌>>◌, pass, cycle}
use otel_ecom_load_genrator.Validate.Cycles.{format_cycle}
use otel_ecom_load_genrator.Chaos.{pick_weighted}
use otel_ecom_load_genrator.Engine.Emission.{Counters, emit_trace, Emitted}
use otel_ecom_load_genrator.Engine.RouteAttributes.{route_attributes}
use otel_ecom_load_genrator.Telemetry.Attributes.{format_int}
use otel_ecom_load_genrator.Tests.Sample.{
  shop, looping, lowest, plan, zeroed, emitters, shop_topology, whole,
}

abbrev pub web : Node
web = record { service = bytes "web"; route = bytes "GET /" }

abbrev pub cart : Node
cart = record { service = bytes "cart"; route = bytes "GET /cart" }

pub shop-accepted : validate_with_warnings (some shop) ≡ pass
unfolding validate_with_warnings ◌+ℤ◌ ◌*ℤ◌ wrap64 ◌>>◌
shop-accepted = refl

looping-rejected : validate (some looping) ≡ some (cycle (web ∷ cart ∷ []) web)
unfolding validate ◌+ℤ◌ wrap64 ◌>>◌
looping-rejected = refl

cycle-message :
    format_cycle (web ∷ cart ∷ []) web ≡ bytes "web:GET / -> cart:GET /cart -> web:GET /"
unfolding format_cycle
cycle-message = refl

abbrev pub db : Node
db = record { service = bytes "db"; route = bytes "HGETALL" }

abbrev pub shop_counters : Counters
shop_counters = record { traces = 1; spans = 3; error_spans = 1; logs = 3; panics = 0 }

abbrev counters_of : Emitted ℤ → Option Counters
counters_of none = none
counters_of (some (_, c)) = some c

shop-emitted :
    counters_of (emit_trace shop_topology emitters plan 4 [] web zeroed) ≡ some shop_counters
unfolding emit_trace ◌+ℤ◌ ◌-ℤ◌ wrap64
shop-emitted = refl

route_attributes-runs :
    (route_attributes (bytes "post /api/checkout") (bytes "Server")
      ≡ (bytes "http.request.method", bytes "POST")
        ∷ (bytes "http.route", bytes "/api/checkout")
        ∷ (bytes "url.path", bytes "/api/checkout")
        ∷ [])
    × (route_attributes (bytes "HGETALL") (bytes "client")
        ≡ (bytes "db.operation.name", bytes "HGETALL") ∷ [])
unfolding route_attributes
route_attributes-runs = (refl, refl)

format_int-runs : (format_int (pos 503) ≡ bytes "503") × (format_int (negsuc 9) ≡ bytes "-10")
unfolding format_int
format_int-runs = (refl, refl)

pick_weighted-runs :
    (pick_weighted lowest (pos 0 ∷ negsuc 4 ∷ pos 7 ∷ []) ≡ pos 2)
    × (pick_weighted lowest [] ≡ negsuc 0)
unfolding pick_weighted ◌+ℤ◌ ◌-ℤ◌ wrap64
pick_weighted-runs = (refl, refl)
