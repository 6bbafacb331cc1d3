-- ===== src/Tests/InstrumentsWitness.antt =====
-- The theorems on instruments, exporters' options and flags at concrete ones.
use Prim.Native.String.{String}
use otel_ecom_load_genrator.Prelude.{ℕ, List, All, Alike, some, none, if◌then◌else◌}
use otel_ecom_load_genrator.Prelude.Int.{ℤ, pos}
use otel_ecom_load_genrator.Prelude.Text.{text_eq}
use otel_ecom_load_genrator.Config.{BusinessMetric}
use otel_ecom_load_genrator.Engine.Emission.{record_business_metrics}
use otel_ecom_load_genrator.Engine.Emission.Business.{added, not_created, recorded, meter_business}
use otel_ecom_load_genrator.Engine.Emission.Business.Recording.{
  IsFor, UsesOwn, meter_business-Recorded,
}
use otel_ecom_load_genrator.Tests.Sample.{whole}
use otel_ecom_load_genrator.Prelude.{◌≡◌, refl, none, [], ◌∷◌}
use otel_ecom_load_genrator.Prelude.Text.{bytes}
use otel_ecom_load_genrator.Telemetry.Emitter.{
  Meter, Emitter, red_duration, red_requests, red_errors, Call, counter_call, histogram_call, given,
  call, calls, new_emitter, made,
}
use otel_ecom_load_genrator.Telemetry.Emitter.Instruments.{call-again}
use otel_ecom_load_genrator.Telemetry.Emitter.WellFormed.{WellFormed}

abbrev fresh : Emitter
fresh = record {
  requests = red_duration ∷ red_requests ∷ red_errors ∷ [];
  duration = 0;
  request_count = 1;
  error_count = 2;
  counters = [];
  histograms = [];
}

abbrev orders : Call
orders = counter_call (bytes "orders") (bytes "1")

-- Refuses one name.
abbrev fussy : Meter
fussy before r = if text_eq r.name (bytes "bad") then some (bytes "bad name") else none

new_emitter-fussy : new_emitter fussy ≡ made fresh
unfolding new_emitter text_eq
new_emitter-fussy = refl

abbrev metric : String → String → BusinessMetric ℤ
metric name kind = record {
  name = bytes name;
  kind = bytes kind;
  unit = bytes "1";
  min = pos 2;
  max = pos 2;
}

abbrev declared : List (BusinessMetric ℤ)
declared = metric "orders" "counter" ∷ metric "bad" "counter" ∷ metric "orders" "histogram" ∷ []

-- Another goroutine calls in between each time.
abbrev meanwhile : ℕ → List Call
meanwhile _ = orders ∷ histogram_call (bytes "carts") (bytes "1") ∷ []

meter_business-Recorded_example :
    Alike
      (IsFor fussy)
      (meter_business fussy meanwhile (λ k. pos 0) 0 declared (calls fussy (orders ∷ []) fresh)).0
      (record_business_metrics (λ k. pos 0) 0 declared)
    × All
        (UsesOwn
          (meter_business fussy meanwhile
            (λ k. pos 0)
            0
            declared
            (calls fussy (orders ∷ []) fresh)).1)
        (meter_business fussy meanwhile (λ k. pos 0) 0 declared (calls fussy (orders ∷ []) fresh)).0
    × WellFormed
        (meter_business fussy meanwhile (λ k. pos 0) 0 declared (calls fussy (orders ∷ []) fresh)).1
meter_business-Recorded_example =
    meter_business-Recorded fussy meanwhile (λ k. pos 0) fresh (orders ∷ []) declared
      new_emitter-fussy

-- The counter is the one that exists; the histogram of the same name is new.
declared-done :
    (meter_business fussy meanwhile (λ k. pos 0) 0 declared fresh).0
    ≡ added (bytes "orders") 3
      ∷ not_created (bytes "bad") (bytes "bad name")
      ∷ recorded (bytes "orders") 6 (pos 2)
      ∷ []
unfolding meter_business text_eq
declared-done = refl

abbrev orders_again : Call
orders_again = counter_call (bytes "orders") (bytes "2")

abbrev between : List Call
between = histogram_call (bytes "orders") (bytes "1") ∷ counter_call (bytes "bad") (bytes "1") ∷ []

orders-given : (call fussy orders fresh).0 ≡ given 3
unfolding call text_eq
orders-given = refl

call-again_example :
    call fussy orders_again (calls fussy between (call fussy orders fresh).1)
    ≡ (given 3, calls fussy between (call fussy orders fresh).1)
call-again_example = call-again fussy fresh orders orders_again 3 between orders-given refl
