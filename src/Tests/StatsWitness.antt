-- ===== src/Tests/StatsWitness.antt =====
-- The theorems on Stats and the progress lines, where a failed span is counted during a Stats.
use otel_ecom_load_genrator.Prelude.{◌≡◌, refl, true, none, List, [], ◌∷◌, arith}
use otel_ecom_load_genrator.Prelude.Int.{ℤ, pos}
use otel_ecom_load_genrator.Telemetry.Providers.{no_providers}
use otel_ecom_load_genrator.Engine.Emission.Interleaved.{a_trace, a_span, an_error, a_log, run_incs}
use otel_ecom_load_genrator.Engine.Scheduler.Run.{run_reports}
use otel_ecom_load_genrator.Engine.Scheduler.Reports.{last_read, sum_traces, sum_spans, IsForward}
use otel_ecom_load_genrator.Engine.Stats.{
  new_engine, Meanwhile, all_of, stats, Reading, readings, after_readings,
}
use otel_ecom_load_genrator.Engine.Stats.Growing.{AllLe, stats-between, readings-run_reports}
use otel_ecom_load_genrator.Tests.Sample.{shop_topology, zeroed, whole}

-- A failed trace of one span, counted after the spans have been loaded.
abbrev overtaken : Meanwhile
overtaken = record {
  before_spans = [];
  before_errors = a_trace ∷ a_span ∷ an_error ∷ a_log ∷ [];
  before_logs = [];
  before_panics = [];
}

-- No snapshot: an error and a log record without a span.
more_errors_than_spans :
    ((stats zeroed overtaken).spans ≡ 0)
    × ((stats zeroed overtaken).error_spans ≡ 1)
    × ((stats zeroed overtaken).logs ≡ 1)
unfolding stats
more_errors_than_spans = (refl, refl, refl)

stats-between_example :
    AllLe zeroed (stats zeroed overtaken)
    × AllLe (stats zeroed overtaken) (run_incs (all_of overtaken) zeroed)
stats-between_example = stats-between zeroed overtaken

abbrev two_reports : List Reading
two_reports =
    record { pause = a_trace ∷ a_span ∷ a_log ∷ []; meanwhile = overtaken }
    ∷ record { pause = a_trace ∷ a_span ∷ []; meanwhile = overtaken }
    ∷ []

readings-run_reports_example :
    (sum_traces {F = ℤ} (
        run_reports
          (pos 30)
          (readings (new_engine shop_topology (no_providers true) none).counters two_reports))
      ≡ (last_read zeroed (
          readings
            (new_engine shop_topology (no_providers true) none).counters
            two_reports)).traces)
    × (sum_spans {F = ℤ} (
          run_reports
            (pos 30)
            (readings (new_engine shop_topology (no_providers true) none).counters two_reports))
        ≡ (last_read zeroed (
            readings
              (new_engine shop_topology (no_providers true) none).counters
              two_reports)).spans)
    × IsForward {F = ℤ} (
        run_reports
          (pos 30)
          (readings (new_engine shop_topology (no_providers true) none).counters two_reports))
unfolding new_engine after_readings
readings-run_reports_example =
    readings-run_reports shop_topology (no_providers true) none (pos 30) two_reports (omega arith)
      (omega arith) (omega arith)
