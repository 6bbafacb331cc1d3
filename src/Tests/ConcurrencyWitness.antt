-- ===== src/Tests/ConcurrencyWitness.antt =====
-- The theorems on goroutines at a small fan-out.
use otel_ecom_load_genrator.Prelude.{◌≡◌, refl, some, List, [], ◌∷◌, arith}
use otel_ecom_load_genrator.Prelude.Int.{ℤ, pos, ◌+ℤ◌, ◌-ℤ◌, ◌*ℤ◌, wrap64}
use otel_ecom_load_genrator.Prelude.Text.{bytes, text_eq}
use otel_ecom_load_genrator.Config.{Route, Service, Topology}
use otel_ecom_load_genrator.Validate.Reachable.{pair_nodes}
use otel_ecom_load_genrator.Chaos.SampleLatency.{sample_latency_millis}
use otel_ecom_load_genrator.Engine.Emission.{
  Counters, SpanRecord, emit_trace, span_of, resolve_visit,
}
use otel_ecom_load_genrator.Engine.Emission.Interleaved.{
  Which, a_trace, a_span, an_error, a_log, a_panic, entry_incs, own_incs, run_incs, ended, left,
  right, Runs, visited, cut_short, joined, forked,
}
use otel_ecom_load_genrator.Engine.Emission.Orders.{Smooth, emit_trace-Agrees}
use otel_ecom_load_genrator.Engine.Emission.Panics.{Balanced, Runs-Balanced}
use otel_ecom_load_genrator.Engine.Timing.{
  nested, Timeds, timed, nil, cons, Emits, wake_at, length_of, end_of,
}
use otel_ecom_load_genrator.Engine.Timing
use otel_ecom_load_genrator.Engine.Timing.Lasting.{IsShort, Lasts, Emits-Lasts}
use otel_ecom_load_genrator.Engine.Timing.Nested.{Within, Emits-nested-Within}
use otel_ecom_load_genrator.Tests.Sample.{
  route, service, failing, db_service, hgetall, plan, zeroed, emitters, whole, latency_draws,
  cart_service, get_cart, shop_topology,
}
use otel_ecom_load_genrator.Tests.Runs.{web, cart, db}

abbrev fan_home : Route ℤ
fan_home =
    route "GET /" "server" ((bytes "cart", bytes "GET /cart") ∷ (bytes "db", bytes "HGETALL") ∷ [])
      []

abbrev fan_cart : Route ℤ
fan_cart = route "GET /cart" "server" [] failing

abbrev fan_web_service : Service ℤ
fan_web_service = service "web" (fan_home ∷ [])

abbrev fan_cart_service : Service ℤ
fan_cart_service = service "cart" (fan_cart ∷ [])

abbrev fan : Topology ℤ
fan = record { services = fan_web_service ∷ fan_cart_service ∷ db_service ∷ [] }

abbrev fan_spans : List (SpanRecord ℤ)
fan_spans =
    span_of (plan []) [] web fan_web_service fan_home
    ∷ span_of (plan []) (0 ∷ []) cart fan_cart_service fan_cart
    ∷ span_of (plan []) (1 ∷ []) db db_service hgetall
    ∷ []

abbrev fan_counters : Counters
fan_counters = record { traces = 1; spans = 3; error_spans = 1; logs = 3; panics = 0 }

fan-emission : emit_trace fan emitters plan 2 [] web zeroed ≡ some (fan_spans, fan_counters)
unfolding emit_trace span_of ◌+ℤ◌ ◌-ℤ◌ wrap64
fan-emission = refl

abbrev cart_incs : List Which
cart_incs = a_span ∷ an_error ∷ a_log ∷ []

abbrev db_incs : List Which
db_incs = a_span ∷ a_log ∷ []

-- The log of cart comes after everything of db.
abbrev mixed : List Which
mixed = a_span ∷ a_span ∷ an_error ∷ a_log ∷ a_log ∷ []

fan-mixed : Runs fan emitters plan [] web (a_trace ∷ a_span ∷ a_log ∷ mixed)
unfolding resolve_visit pair_nodes own_incs span_of ◌+ℤ◌ ◌-ℤ◌ wrap64
fan-mixed = visited [] web fan_web_service fan_home refl mixed (
    forked [] 0 cart (db ∷ []) cart_incs db_incs mixed
      (visited (0 ∷ []) cart fan_cart_service fan_cart refl [] (joined (0 ∷ []) 0))
      (forked [] 1 db [] db_incs [] db_incs
        (visited (1 ∷ []) db db_service hgetall refl [] (joined (1 ∷ []) 0)) (joined [] 2)
        (left a_span _ _ _ (left a_log _ _ _ ended)))
      (left a_span _ _ _
        (right a_span _ _ _ (left an_error _ _ _ (right a_log _ _ _ (left a_log _ _ _ ended))))))

mixed-Smooth : Smooth (a_trace ∷ a_span ∷ a_log ∷ mixed)
mixed-Smooth = (
  (λ e. cc),
  ((λ e. cc), ((λ e. cc), ((λ e. cc), ((λ e. cc), ((λ e. cc), ((λ e. cc), ((λ e. cc), tt))))))),
)

-- The goroutine for db panics before its log record, between two steps of the other.
abbrev with_panic : List Which
with_panic = a_span ∷ a_span ∷ a_panic ∷ an_error ∷ a_log ∷ []

fan-panics : Runs fan emitters plan [] web (a_trace ∷ a_span ∷ a_log ∷ with_panic)
unfolding resolve_visit pair_nodes own_incs entry_incs span_of ◌+ℤ◌ ◌-ℤ◌ wrap64
fan-panics = visited [] web fan_web_service fan_home refl with_panic (
    forked [] 0 cart (db ∷ []) cart_incs (a_span ∷ a_panic ∷ []) with_panic
      (visited (0 ∷ []) cart fan_cart_service fan_cart refl [] (joined (0 ∷ []) 0))
      (forked [] 1 db [] (a_span ∷ a_panic ∷ []) [] (a_span ∷ a_panic ∷ [])
        (cut_short (1 ∷ []) db db_service hgetall refl) (joined [] 2)
        (left a_span _ _ _ (left a_panic _ _ _ ended)))
      (left a_span _ _ _
        (right a_span _ _ _ (right a_panic _ _ _ (left an_error _ _ _ (left a_log _ _ _ ended))))))

Runs-Balanced_example : Balanced zeroed (run_incs (a_trace ∷ a_span ∷ a_log ∷ with_panic) zeroed)
Runs-Balanced_example =
    Runs-Balanced fan emitters plan [] web (a_trace ∷ a_span ∷ a_log ∷ with_panic) fan-panics zeroed

emit_trace-Agrees_example : run_incs (a_trace ∷ a_span ∷ a_log ∷ mixed) zeroed ≡ fan_counters
emit_trace-Agrees_example =
    emit_trace-Agrees fan emitters plan 2 [] web zeroed fan_spans fan_counters fan-emission
      (a_trace ∷ a_span ∷ a_log ∷ mixed) fan-mixed mixed-Smooth

abbrev db_spans : Timeds
db_spans = cons (timed 3 (pos 20_000_005) (pos 20) nil) nil

abbrev cart_spans : Timeds
cart_spans = cons (timed 1 (pos 20_000_011) (pos 20) db_spans) nil

cart-nested : Emits shop_topology emitters nested 0 cart cart_spans 20_000_012
unfolding text_eq resolve_visit sample_latency_millis pair_nodes wake_at length_of end_of ◌+ℤ◌ ◌-ℤ◌
    ◌*ℤ◌ wrap64
cart-nested =
    Timing.visited 0 1 20_000_010 20_000_011 20_000_012 0 cart cart_service get_cart latency_draws
      db_spans (pos 20) refl refl (omega arith)
      (Timing.forked 1 2 20_000_006 20_000_010 db [] db_spans nil (omega arith)
        (Timing.visited 2 3 4 20_000_005 20_000_006 2 db db_service hgetall latency_draws nil
          (pos 20) refl refl (omega arith) (Timing.joined 3 4 (omega arith)) (ground arith)
          (omega arith))
        (omega arith) (Timing.joined 1 20_000_010 (omega arith)))
      (ground arith) (omega arith)

Emits-nested-Within_example : Within 0 (pos 20_000_012) cart_spans
Emits-nested-Within_example =
    Emits-nested-Within shop_topology emitters 0 20_000_012 cart cart_spans cart-nested

cart-IsShort : IsShort cart_spans
cart-IsShort = ((20, refl, omega arith), ((20, refl, omega arith), tt, tt), tt)

Emits-Lasts_example : Lasts nested cart_spans
Emits-Lasts_example =
    Emits-Lasts shop_topology emitters nested 0 20_000_012 cart cart_spans cart-nested (omega arith)
      cart-IsShort
