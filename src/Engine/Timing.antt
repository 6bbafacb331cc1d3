-- ===== src/Engine/Timing.antt =====
-- internal/engine/engine.go: the timing modes, and the clock times of spans. The goroutines of a
-- fan-out run on one clock, in nanoseconds; a step of the program takes any time.
pub mod Nested
pub mod Lasting
use otel_ecom_load_genrator.Prelude.{
  ℕ, zero, suc, ◌+◌, ◌-◌, ◌*◌, ◌≤◌, ◌≡◌, Option, none, some, List, [], ◌∷◌, if◌then◌else◌,
}
use otel_ecom_load_genrator.Prelude.Int.{ℤ, pos, pos_part, neg_part, ltb_ℤ, sub_ℕ, ◌*ℤ◌, ◌-ℤ◌}
use otel_ecom_load_genrator.Prelude.Float64.{Float64}
use otel_ecom_load_genrator.Chaos.SampleLatency.{Draws, sample_latency_millis}
use otel_ecom_load_genrator.Prelude.Text.{Text, bytes, text_eq, to_lower, trim_space}
use otel_ecom_load_genrator.Config.{Service, Route, Topology}
use otel_ecom_load_genrator.Validate.Verdict.{Node}
use otel_ecom_load_genrator.Validate.Reachable.{pair_nodes}
use otel_ecom_load_genrator.Engine.Emission.{resolve_visit}

pub data TimingMode : Type 0 where
  synthetic nested : TimingMode

-- The string constants of the two modes.
abbrev pub mode_name : TimingMode → Text
mode_name synthetic = bytes "synthetic"
mode_name nested = bytes "nested"

-- `none` stands for the error, which quotes the argument.
unfoldable pub parse_timing_mode : Text → Option TimingMode
unfolding to_lower trim_space text_eq
parse_timing_mode s =
    let word = to_lower (trim_space s) in
    if text_eq word (mode_name synthetic)
    then some synthetic
    else if text_eq word (mode_name nested)
    then some nested
    else none

-- What engine.New keeps: an Options without a mode is synthetic.
unfoldable pub timing_of : Option TimingMode → TimingMode
timing_of none = synthetic
timing_of (some mode) = mode

abbrev pub millisecond : ℕ
millisecond = 1_000_000

-- A span with its start, its end, the milliseconds drawn for it, which RecordRED records, and the
-- spans of its calls.
mutual
  pub data Timed : Type 0 where
    timed : ℕ → ℤ → ℤ → Timeds → Timed

  pub data Timeds : Type 0 where
    nil : Timeds
    cons : Timed → Timeds → Timeds

abbrev pub both : Timeds → Timeds → Timeds
both nil us = us
both (cons t ts) us = cons t (both ts us)

-- time.Duration(durationMillis) * time.Millisecond
unfoldable pub length_of : ℤ → ℤ
length_of duration = duration *ℤ pos millisecond

-- When the program goes on after the calls have returned, at `now`: nested timing sleeps for what is
-- left of the duration, and `late` longer.
unfoldable pub wake_at : TimingMode → ℕ → ℕ → ℤ → ℕ → ℕ
unfolding length_of
wake_at synthetic start now duration late = now
wake_at nested start now duration late =
    let left = length_of duration -ℤ pos (now - start) in
    if ltb_ℤ (pos 0) left then now + pos_part left + late else now

-- The end that the span is given: the clock at span.End, or a time computed from the start.
unfoldable pub end_of : TimingMode → ℕ → ℤ → ℕ → ℤ
unfolding length_of
end_of synthetic start duration clock =
    sub_ℕ (start + pos_part (length_of duration)) (neg_part (length_of duration))
end_of nested start duration clock = pos clock

module _ {F : Type 0} ⦃fl : Float64 F⦄ (t : Topology F) (emitters : List Text)
    (mode : TimingMode) where
  mutual
    -- EmitTrace for the node, called at the first time, with its spans, returns at the second.
    pub data Emits : ℕ → Node → Timeds → ℕ → Type 0 where
      skipped : (a b : ℕ) (n : Node) → resolve_visit t emitters n ≡ none → a ≤ b → Emits a n nil b
      visited :
          (a start now clock b late : ℕ) (n : Node) (s : Service F) (r : Route F) (d : Draws F)
          (below : Timeds) (duration : ℤ)
          → resolve_visit t emitters n ≡ some (s, r)
          → duration ≡ sample_latency_millis r.latency d
          → a ≤ start
          → Forks start (pair_nodes r.downstream_calls) below now
          → wake_at mode start now duration late ≤ clock
          → clock ≤ b
          → Emits a n (cons (timed start (end_of mode start duration clock) duration below) nil) b

    -- The goroutines for the calls, spawned one after the other from the first time on; wg.Wait
    -- returns at the second, when all have returned.
    pub data Forks : ℕ → List Node → Timeds → ℕ → Type 0 where
      joined : (a b : ℕ) → a ≤ b → Forks a [] nil b
      forked :
          (a start back b : ℕ) (n : Node) (ns : List Node) (first rest : Timeds)
          → a ≤ start
          → Emits start n first back
          → back ≤ b
          → Forks a ns rest b
          → Forks a (n ∷ ns) (both first rest) b
