-- ===== src/Tests/EngineWitness.antt =====
-- The theorems on the engine at the sample documents.
use otel_ecom_load_genrator.Prelude.{Mem}
use otel_ecom_load_genrator.Prelude.{
  ℕ, suc, ◌+◌, ◌*◌, ◌≤◌, ◌<◌, ◌≡◌, ◌↔◌, refl, true, some, List, [], ◌∷◌, arith, inl, ap,
}
use otel_ecom_load_genrator.Prelude.Int.{ℤ, pos, ◌+ℤ◌, ◌-ℤ◌, wrap64}
use otel_ecom_load_genrator.Prelude.Text.{to_lower, to_upper, bytes}
use otel_ecom_load_genrator.Validate.Cycles.{root_nodes, known}
use otel_ecom_load_genrator.Engine.Emission.{SpanRecord, Counters, span_of, emit_trace}
use otel_ecom_load_genrator.Engine.Emission.Totals.{Adds, emit_trace-Adds}
use otel_ecom_load_genrator.Engine.Emission.CallTree.{InTree}
use otel_ecom_load_genrator.Engine.Emission.Coverage.{emit_trace-InTree}
use otel_ecom_load_genrator.Engine.Emission.Once.{Once, emit_trace-Once}
use otel_ecom_load_genrator.Engine.Emission.Visits.{Visits}
use otel_ecom_load_genrator.Engine.Emission.Returns.{emit_trace_returns}
use otel_ecom_load_genrator.Engine.Scheduler.{
  Wake, cancelled, tick, interval_for, is_open, run_route, minute, second, hour, min_interval,
}
use otel_ecom_load_genrator.Engine.Scheduler.Windows.{interval_for_bounds, is_open_iff}
use otel_ecom_load_genrator.Engine.Scheduler.Loop.{
  heard, interval_at, asked, last_interval, run_route_lem,
}
use otel_ecom_load_genrator.Engine.RouteAttributes.Splits.{Splits, split_routes_iff}
use otel_ecom_load_genrator.Engine.RouteAttributes.{
  http_methods, messaging_operations, split_http_route, split_messaging_route,
}
use otel_ecom_load_genrator.Tests.Sample.{
  web_service, cart_service, db_service, home, get_cart, hgetall, shop, shop_topology, whole, plan,
  zeroed, emitters, surge, root,
}
use otel_ecom_load_genrator.Tests.Runs.{web, cart, db, shop_counters, shop-accepted}

emit_trace_returns_example :
    (out : List (SpanRecord ℤ) × Counters) × (emit_trace shop_topology emitters plan 4 [] web zeroed
      ≡ some out)
unfolding root_nodes known
emit_trace_returns_example =
    emit_trace_returns shop emitters plan web 4 [] zeroed (ap (λ r. r.error) shop-accepted)
      (ground arith) (inl refl) (omega arith)

abbrev db_span : SpanRecord ℤ
db_span = span_of (plan []) (0 ∷ 0 ∷ []) db db_service hgetall

abbrev shop_spans : List (SpanRecord ℤ)
shop_spans =
    span_of (plan []) [] web web_service home
    ∷ span_of (plan []) (0 ∷ []) cart cart_service get_cart
    ∷ span_of (plan []) (0 ∷ 0 ∷ []) db db_service hgetall
    ∷ []

shop-emission :
    emit_trace shop_topology emitters plan 4 [] web zeroed ≡ some (shop_spans, shop_counters)
unfolding emit_trace span_of ◌+ℤ◌ ◌-ℤ◌ wrap64
shop-emission = refl

emit_trace-Adds_example : Adds shop_spans zeroed shop_counters
emit_trace-Adds_example =
    emit_trace-Adds shop_topology emitters plan 4 [] web zeroed shop_spans shop_counters
      shop-emission

abbrev wakes : List Wake
wakes = tick 1_000_000_000 ∷ tick 2_000_000_000 ∷ cancelled ∷ tick 3_000_000_000 ∷ []

run_route_lem_example : run_route (surge ∷ []) root 0 wakes ≡ record {
  current = last_interval (surge ∷ []) root (interval_at (surge ∷ []) root 0) (heard wakes);
  actions = asked (surge ∷ []) root (interval_at (surge ∷ []) root 0) (heard wakes);
  stopped = true;
}
run_route_lem_example = run_route_lem (surge ∷ []) root 0 wakes

is_open_iff_example : (is_open surge 30_000_000_000 ≡ true) ↔ (
    (k : ℕ) × (k * (10 * minute) ≤ 30_000_000_000)
    × (30_000_000_000 < k * (10 * minute) + 60 * second)
    × (30_000_000_000 < suc k * (10 * minute)))
is_open_iff_example =
    is_open_iff surge 10 60 30_000_000_000 (refl, refl) (omega arith, omega arith, omega arith)

interval_for_bounds_example :
    (interval : ℕ) × (interval_for (pos 7) ≡ pos interval)
    × (min_interval ≤ interval)
    × (interval ≤ hour)
    × (interval * 7 ≤ hour)
    × (hour < interval * 7 + 7)
interval_for_bounds_example = interval_for_bounds 7 (omega arith) (omega arith)

emit_trace-InTree_example :
    Mem db_span shop_spans ↔ InTree shop_topology emitters plan [] web db_span
emit_trace-InTree_example =
    emit_trace-InTree shop_topology emitters plan 4 [] web zeroed shop_spans shop_counters
      shop-emission db_span

emit_trace-Once_example : Once shop_spans × Visits shop_topology emitters web 3
emit_trace-Once_example =
    emit_trace-Once shop_topology emitters plan 4 [] web zeroed shop_spans shop_counters
      shop-emission

-- A route in lower case with spaces to trim.
split_routes_iff_example :
    ((split_http_route (bytes "get  /cart ") ≡ some (bytes "GET", bytes "/cart"))
      ↔ Splits to_upper http_methods (bytes "get  /cart ") (bytes "GET") (bytes "/cart"))
    × ((split_messaging_route (bytes "get  /cart ") ≡ some (bytes "GET", bytes "/cart"))
        ↔ Splits to_lower messaging_operations (bytes "get  /cart ") (bytes "GET") (bytes "/cart"))
split_routes_iff_example = split_routes_iff (bytes "get  /cart ") (bytes "GET") (bytes "/cart")
