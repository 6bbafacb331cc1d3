-- ===== src/Engine/Scheduler/Run.antt =====
-- internal/engine/scheduler.go: scheduler.Run, Engine.Run with its reporter, and perSecond. Each root
-- route has its goroutine, known by the time of its first clock reading and by what wakes its loop;
-- the goroutines act in any order. The reporter is known by the Stats that it reads.
use otel_ecom_load_genrator.Prelude.{ℕ, ◌/◌, ◌%◌, Bool, true, false, List, [], ◌∷◌, if◌then◌else◌}
use otel_ecom_load_genrator.Prelude.Int.{ℤ, pos, pos_part, leb_ℤ, ltb_ℤ, ◌-ℤ◌}
use otel_ecom_load_genrator.Prelude.Float64.{Float64}
use otel_ecom_load_genrator.Config.{RootRoute, Surge}
use otel_ecom_load_genrator.Engine.Emission.{Counters}
use otel_ecom_load_genrator.Engine.Scheduler.{Wake, Action, run_route, second}

-- The goroutine of a root route.
pub record Routine : Type 0 where
  pub root : RootRoute
  pub since : ℕ
  pub wakes : List Wake

-- One list that keeps the order of each of two.
pub data Woven {A : Type 0} : List A → List A → List A → Type 0 where
  ended : Woven [] [] []
  left : (a : A) (xs ys zs : List A) → Woven xs ys zs → Woven (a ∷ xs) ys (a ∷ zs)
  right : (a : A) (xs ys zs : List A) → Woven xs ys zs → Woven xs (a ∷ ys) (a ∷ zs)

module _ {F : Type 0} ⦃fl : Float64 F⦄ (surges : List (Surge F)) where
  -- What the goroutines do together, in an order in which it can happen.
  pub data RunActions : List Routine → List Action → Type 0 where
    no_roots : RunActions [] []
    and_root :
        (g : Routine) (gs : List Routine) (rest all : List Action)
        → RunActions gs rest
        → Woven (run_route surges g.root g.since g.wakes).actions rest all
        → RunActions (g ∷ gs) all

  -- wg.Wait returns when every goroutine has.
  unfoldable pub run_returns : List Routine → Bool
  unfolding run_route
  run_returns [] = true
  run_returns (g ∷ gs) =
      let rest = run_returns gs in
      if (run_route surges g.root g.since g.wakes).stopped then rest else false

-- What ends or wakes the loop of startReporter.
pub data Beat : Type 0 where
  ended : Beat
  read : Counters → Beat

-- A progress line, without the elapsed time.
pub record Progress (F : Type 0) : Type 0 where
  pub now : Counters
  pub traces_per_interval : ℤ
  pub spans_per_interval : ℤ
  pub spans_per_second : F

abbrev pub no_counts : Counters
no_counts = record { traces = 0; spans = 0; error_spans = 0; logs = 0; panics = 0 }

module _ {F : Type 0} ⦃fl : Float64 F⦄ where
  -- interval.Seconds(), for an interval that is not negative.
  unfoldable pub seconds : ℕ → F
  seconds d =
      fl.add (fl.of_int (pos (d / second)))
        (fl.div (fl.of_int (pos (d % second))) (fl.of_int (pos second)))

  unfoldable pub per_second : ℤ → ℤ → F
  unfolding seconds
  per_second delta interval =
      let rate = fl.div (fl.of_int delta) (seconds (pos_part interval)) in
      if leb_ℤ interval (pos 0)
      then fl.of_int (pos 0)
      else fl.div (fl.round (fl.mul rate (fl.of_int (pos 10)))) (fl.of_int (pos 10))

  unfoldable pub report_line : ℤ → Counters → Counters → Progress F
  unfolding per_second
  report_line every last now = record {
    now = now;
    traces_per_interval = pos now.traces -ℤ pos last.traces;
    spans_per_interval = pos now.spans -ℤ pos last.spans;
    spans_per_second = per_second (pos now.spans -ℤ pos last.spans) every;
  }

  unfoldable pub report_loop : ℤ → Counters → List Beat → List (Progress F)
  unfolding report_line
  report_loop every last [] = []
  report_loop every last (ended ∷ beats) = []
  report_loop every last (read now ∷ beats) =
      report_line every last now ∷ report_loop every now beats

  -- Engine.Run starts a reporter only for a positive interval.
  unfoldable pub run_reports : ℤ → List Beat → List (Progress F)
  unfolding report_loop
  run_reports every beats = if ltb_ℤ (pos 0) every then report_loop every no_counts beats else []
