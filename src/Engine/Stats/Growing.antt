-- ===== src/Engine/Stats/Growing.antt =====
-- What Stats reads lies between the counters when it starts and when it ends, so that the progress
-- lines of a running engine never go down.
use otel_ecom_load_genrator.Prelude.{
  ◌≤◌, ◌<◌, ◌≡◌, refl, sym, Option, subst, List, [], ◌∷◌, ◌++◌, arith,
}
use otel_ecom_load_genrator.Prelude.Int.{ℤ, pos, ◌<ℤ◌, int64_half}
use otel_ecom_load_genrator.Prelude.Float64.{Float64}
use otel_ecom_load_genrator.Config.{Topology}
use otel_ecom_load_genrator.Telemetry.Providers.{Providers}
use otel_ecom_load_genrator.Engine.Timing.{TimingMode}
use otel_ecom_load_genrator.Engine.Emission.{Counters}
use otel_ecom_load_genrator.Engine.Emission.Interleaved.{
  Which, a_trace, a_span, an_error, a_log, a_panic, inc, run_incs,
}
use otel_ecom_load_genrator.Engine.Emission.Orders.{run_incs-append}
use otel_ecom_load_genrator.Engine.Scheduler.Run.{no_counts, run_reports}
use otel_ecom_load_genrator.Engine.Scheduler.Reports.{
  IsGrowing, last_read, sum_traces, sum_spans, IsForward, run_reports_lem,
}
use otel_ecom_load_genrator.Engine.Stats.{
  new_engine, Meanwhile, all_of, stats, Reading, after_reading, readings, after_readings,
}

abbrev pub AllLe : Counters → Counters → Type 0
AllLe a b =
    (a.traces ≤ b.traces)
    × (a.spans ≤ b.spans)
    × (a.error_spans ≤ b.error_spans)
    × (a.logs ≤ b.logs)
    × (a.panics ≤ b.panics)

inc-AllLe : (w : Which) (c : Counters) → AllLe c (inc w c)
unfolding inc
inc-AllLe a_trace c = ground arith
inc-AllLe a_span c = ground arith
inc-AllLe an_error c = ground arith
inc-AllLe a_log c = ground arith
inc-AllLe a_panic c = ground arith

AllLe-trans : (a b c : Counters) → AllLe a b → AllLe b c → AllLe a c
AllLe-trans a b c h k = ground arith

pub run_incs-AllLe : (ws : List Which) (c : Counters) → AllLe c (run_incs ws c)
unfolding run_incs
run_incs-AllLe [] c = ground arith
run_incs-AllLe (w ∷ ws) c =
    AllLe-trans c (inc w c) (run_incs ws (inc w c)) (inc-AllLe w c) (run_incs-AllLe ws (inc w c))

run_incs-all_of :
    (m : Meanwhile) (c : Counters)
    → run_incs (all_of m) c
      ≡ run_incs m.before_panics
          (run_incs m.before_logs (run_incs m.before_errors (run_incs m.before_spans c)))
run_incs-all_of m c =
    rw
      (
        run_incs-append m.before_spans (m.before_errors ++ (m.before_logs ++ m.before_panics)) c,
        run_incs-append m.before_errors (m.before_logs ++ m.before_panics)
            (run_incs m.before_spans c),
        run_incs-append m.before_logs m.before_panics
            (run_incs m.before_errors (run_incs m.before_spans c)),
      )
      refl

-- Whatever is incremented while Stats loads the counters, each one that it returns lies between its
-- values when Stats starts and when it has loaded the last.
pub stats-between :
    (c : Counters) (m : Meanwhile) → AllLe c (stats c m) × AllLe (stats c m) (run_incs (all_of m) c)
unfolding stats
stats-between c m =
    let at_spans = run_incs m.before_spans c in
    let at_errors = run_incs m.before_errors at_spans in
    let at_logs = run_incs m.before_logs at_errors in
    let s = run_incs-AllLe m.before_spans c in
    let e = run_incs-AllLe m.before_errors at_spans in
    let l = run_incs-AllLe m.before_logs at_errors in
    let p = run_incs-AllLe m.before_panics at_logs in
    subst (λ d. AllLe c (stats c m) × AllLe (stats c m) d) (sym (run_incs-all_of m c))
      (
        (omega arith, omega arith, omega arith, omega arith, omega arith),
        (omega arith, omega arith, omega arith, omega arith, omega arith),
      )

after_readings-AllLe : (rs : List Reading) (c : Counters) → AllLe c (after_readings c rs)
unfolding after_readings
after_readings-AllLe [] c = ground arith
after_readings-AllLe (r ∷ rs) c =
    let paused = run_incs r.pause c in
    AllLe-trans c paused (after_readings (after_reading c r) rs) (run_incs-AllLe r.pause c) (
      AllLe-trans paused (after_reading c r) (after_readings (after_reading c r) rs)
        (run_incs-AllLe (all_of r.meanwhile) paused) (after_readings-AllLe rs (after_reading c r)))

-- Whatever happens during and between them, no Stats reads less than the one before.
readings-IsGrowing :
    (rs : List Reading) (last c : Counters)
    → AllLe last c
    → (after_readings c rs).traces < int64_half
    → (after_readings c rs).spans < int64_half
    → IsGrowing last (readings c rs)
unfolding readings after_readings
readings-IsGrowing [] last c h t s = tt
readings-IsGrowing (r ∷ rs) last c h t s =
    let paused = run_incs r.pause c in
    let next = after_reading c r in
    let grown = run_incs-AllLe r.pause c in
    let (above, below) = stats-between paused r.meanwhile in
    let later = after_readings-AllLe rs next in
    (
      omega arith,
      omega arith,
      omega arith,
      omega arith,
      readings-IsGrowing rs (stats paused r.meanwhile) next below t s,
    )

-- While a new engine runs, its reporter reads Stats between and amid the increments of the emissions.
-- In whatever order those fall, the intervals of the progress lines add up to the traces and the
-- spans of the last line and none is negative, for a positive interval and counts that fit in an
-- int64.
pub readings-run_reports :
    {F : Type 0} ⦃fl : Float64 F⦄ (t : Topology F) (p : Providers) (timing : Option TimingMode)
    (every : ℤ) (rs : List Reading)
    → pos 0 <ℤ every
    → (after_readings (new_engine t p timing).counters rs).traces < int64_half
    → (after_readings (new_engine t p timing).counters rs).spans < int64_half
    → (sum_traces {F = F} (run_reports every (readings (new_engine t p timing).counters rs))
        ≡ (last_read no_counts (readings (new_engine t p timing).counters rs)).traces)
      × (sum_spans {F = F} (run_reports every (readings (new_engine t p timing).counters rs))
          ≡ (last_read no_counts (readings (new_engine t p timing).counters rs)).spans)
      × IsForward {F = F} (run_reports every (readings (new_engine t p timing).counters rs))
unfolding new_engine
readings-run_reports {F} t p timing every rs on traces spans =
    run_reports_lem F every (readings no_counts rs) on (
      readings-IsGrowing rs no_counts no_counts
        (omega arith, omega arith, omega arith, omega arith, omega arith) traces spans)
