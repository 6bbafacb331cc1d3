-- ===== src/Engine/Stats.antt =====
-- internal/engine/engine.go: the Engine that New returns, and Stats, which loads the five counters one
-- after the other while other goroutines go on incrementing them.
pub mod Growing
use otel_ecom_load_genrator.Prelude.{Option, List, [], ◌∷◌, ◌++◌}
use otel_ecom_load_genrator.Config.{Topology}
use otel_ecom_load_genrator.Telemetry.Providers.{Providers}
use otel_ecom_load_genrator.Engine.Timing.{TimingMode, timing_of}
use otel_ecom_load_genrator.Engine.Emission.{Counters}
use otel_ecom_load_genrator.Engine.Emission.Interleaved.{Which, run_incs}
use otel_ecom_load_genrator.Engine.Scheduler.Run.{Beat, read, no_counts}

-- An Engine, without its logger.
pub record Engine (F : Type 0) : Type 0 where
  pub topo : Topology F
  pub providers : Providers
  pub timing : TimingMode
  pub counters : Counters

-- New, for the mode of its Options, which may be empty.
unfoldable pub new_engine : {F : Type 0} → Topology F → Providers → Option TimingMode → Engine F
unfolding timing_of
new_engine t p timing = record {
  topo = t;
  providers = p;
  timing = timing_of timing;
  counters = no_counts;
}

-- The increments that happen before each load of Stats but the first.
pub record Meanwhile : Type 0 where
  pub before_spans : List Which
  pub before_errors : List Which
  pub before_logs : List Which
  pub before_panics : List Which

abbrev pub all_of : Meanwhile → List Which
all_of m = m.before_spans ++ (m.before_errors ++ (m.before_logs ++ m.before_panics))

-- Stats, called when the counters are c.
unfoldable pub stats : Counters → Meanwhile → Counters
unfolding run_incs
stats c m =
    let at_spans = run_incs m.before_spans c in
    let at_errors = run_incs m.before_errors at_spans in
    let at_logs = run_incs m.before_logs at_errors in
    let at_panics = run_incs m.before_panics at_logs in
    record {
      traces = c.traces;
      spans = at_spans.spans;
      error_spans = at_errors.error_spans;
      logs = at_logs.logs;
      panics = at_panics.panics;
    }

-- A report: the increments since the last one, and those during its Stats.
pub record Reading : Type 0 where
  pub pause : List Which
  pub meanwhile : Meanwhile

abbrev pub after_reading : Counters → Reading → Counters
after_reading c r = run_incs (all_of r.meanwhile) (run_incs r.pause c)

-- What the reporter reads of an engine whose counters are c, and the counters afterwards.
unfoldable pub readings : Counters → List Reading → List Beat
unfolding stats
readings c [] = []
readings c (r ∷ rs) =
    read (stats (run_incs r.pause c) r.meanwhile) ∷ readings (after_reading c r) rs

unfoldable pub after_readings : Counters → List Reading → Counters
unfolding run_incs
after_readings c [] = c
after_readings c (r ∷ rs) = after_readings (after_reading c r) rs
