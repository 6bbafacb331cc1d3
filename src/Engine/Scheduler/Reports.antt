-- ===== src/Engine/Scheduler/Reports.antt =====
-- The progress lines add up to what was counted.
use otel_ecom_load_genrator.Prelude.{ℕ, ◌+◌, ◌≤◌, ◌<◌, ◌≡◌, List, [], ◌∷◌, arith}
use otel_ecom_load_genrator.Prelude.Int.{
  ℤ, pos, pos_part, neg_part, ◌<ℤ◌, int64_half, ◌-ℤ◌, wrap64-Fits,
}
use otel_ecom_load_genrator.Prelude.Float64.{Float64}
use otel_ecom_load_genrator.Engine.Emission.{Counters}
use otel_ecom_load_genrator.Engine.Scheduler.Run.{
  Beat, ended, read, Progress, report_line, report_loop, no_counts, run_reports,
}

-- Each Stats read is no smaller than the one before, and fits in an int64.
abbrev pub IsGrowing : Counters → List Beat → Type 0
IsGrowing last [] = Unit
IsGrowing last (ended ∷ beats) = Unit
IsGrowing last (read now ∷ beats) =
    (last.traces ≤ now.traces)
    × (last.spans ≤ now.spans)
    × (now.traces < int64_half)
    × (now.spans < int64_half)
    × IsGrowing now beats

-- The Stats of the last line, or those given where there is none.
abbrev pub last_read : Counters → List Beat → Counters
last_read last [] = last
last_read last (ended ∷ beats) = last
last_read last (read now ∷ beats) = last_read now beats

module _ {F : Type 0} where
  abbrev pub sum_traces : List (Progress F) → ℕ
  sum_traces [] = 0
  sum_traces (l ∷ ls) = pos_part l.traces_per_interval + sum_traces ls

  abbrev pub sum_spans : List (Progress F) → ℕ
  sum_spans [] = 0
  sum_spans (l ∷ ls) = pos_part l.spans_per_interval + sum_spans ls

  -- No line reports a decrease.
  abbrev pub IsForward : List (Progress F) → Type 0
  IsForward [] = Unit
  IsForward (l ∷ ls) =
      (neg_part l.traces_per_interval ≡ 0) × (neg_part l.spans_per_interval ≡ 0) × IsForward ls

delta_parts :
    (a b : ℕ)
    → a ≤ b
    → b < int64_half
    → (pos_part (pos b -ℤ pos a) + a ≡ b) × (neg_part (pos b -ℤ pos a) ≡ 0)
unfolding ◌-ℤ◌
delta_parts a b order small = ground (arith, wrap64-Fits (b + 0) (0 + a))

module _ (F : Type 0) ⦃fl : Float64 F⦄ where
  report_loop_lem :
      (every : ℤ) (last : Counters) (beats : List Beat)
      → IsGrowing last beats
      → (last.traces + sum_traces {F = F} (report_loop every last beats)
          ≡ (last_read last beats).traces)
        × (last.spans + sum_spans {F = F} (report_loop every last beats)
            ≡ (last_read last beats).spans)
        × IsForward {F = F} (report_loop every last beats)
  unfolding report_loop report_line
  report_loop_lem every last [] h = (omega arith, omega arith, tt)
  report_loop_lem every last (ended ∷ beats) h = (omega arith, omega arith, tt)
  report_loop_lem every last (read now ∷ beats) (t, s, t', s', h) =
      let (traces, spans, forward) = report_loop_lem every now beats h in
      let (dt, no_t) = delta_parts last.traces now.traces t t' in
      let (ds, no_s) = delta_parts last.spans now.spans s s' in
      (omega arith, omega arith, (no_t, no_s, forward))

  -- With reporting on, the intervals of the progress lines add up to the traces and the spans of the
  -- last line, and none is negative, while the counters grow and fit in an int64.
  pub run_reports_lem :
      (every : ℤ) (beats : List Beat)
      → pos 0 <ℤ every
      → IsGrowing no_counts beats
      → (sum_traces {F = F} (run_reports every beats) ≡ (last_read no_counts beats).traces)
        × (sum_spans {F = F} (run_reports every beats) ≡ (last_read no_counts beats).spans)
        × IsForward {F = F} (run_reports every beats)
  unfolding run_reports
  run_reports_lem every beats on h =
      let whole = report_loop_lem every no_counts beats h in ground arith
