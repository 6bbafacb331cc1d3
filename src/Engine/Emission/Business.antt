-- ===== src/Engine/Emission/Business.antt =====
-- internal/engine/engine.go: recordBusinessMetrics with the instruments of the service's Emitter, which
-- it creates when they are first needed and shares with the other goroutines of the service.
pub mod Recording
use otel_ecom_load_genrator.Prelude.{ℕ, suc, List, [], ◌∷◌, if◌then◌else◌}
use otel_ecom_load_genrator.Prelude.Text.{Text, bytes, text_eq}
use otel_ecom_load_genrator.Prelude.Float64.{Float64}
use otel_ecom_load_genrator.Config.{BusinessMetric}
use otel_ecom_load_genrator.Telemetry.Emitter.{
  Meter, Emitter, Given, given, refused, Call, counter_call, histogram_call, call, calls,
}
use otel_ecom_load_genrator.Engine.Emission.{sample_in_range}

-- What is done for one declared metric: an instrument, by its number, is incremented or given a
-- value, or a warning says that it could not be created.
pub data Done (F : Type 0) : Type 0 where
  added : Text → ℕ → Done F
  recorded : Text → ℕ → F → Done F
  not_created : Text → Text → Done F

module _ {F : Type 0} ⦃fl : Float64 F⦄ where
  abbrev pub add_one : Text → Given → Done F
  add_one name (given i) = added name i
  add_one name (refused e) = not_created name e

  abbrev pub record_value : Text → F → Given → Done F
  record_value name x (given i) = recorded name i x
  record_value name x (refused e) = not_created name e

  -- Other goroutines make the calls `others k` before the metric of index k.
  unfoldable pub meter_business :
      Meter
      → (ℕ → List Call)
      → (ℕ → F)
      → ℕ
      → List (BusinessMetric F)
      → Emitter
      → List (Done F) × Emitter
  unfolding call calls sample_in_range text_eq
  meter_business meter others u k [] em = ([], em)
  meter_business meter others u k (bm ∷ bms) em =
      let before = calls meter (others k) em in
      let as_counter = call meter (counter_call bm.name bm.unit) before in
      let as_histogram = call meter (histogram_call bm.name bm.unit) before in
      let after_counter = meter_business meter others u (suc k) bms as_counter.1 in
      let after_histogram = meter_business meter others u (suc k) bms as_histogram.1 in
      let after_neither = meter_business meter others u (suc k) bms before in
      if text_eq bm.kind (bytes "counter")
      then (add_one bm.name as_counter.0 ∷ after_counter.0, after_counter.1)
      else if text_eq bm.kind (bytes "histogram")
      then (
        record_value bm.name (sample_in_range bm.min bm.max (u k)) as_histogram.0
            ∷ after_histogram.0,
        after_histogram.1,
      )
      else after_neither
