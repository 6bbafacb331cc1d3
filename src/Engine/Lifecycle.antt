-- ===== src/Engine/Lifecycle.antt =====
-- cmd/otel-ecom-load-genrator/main.go and internal/engine/scheduler.go: the goroutines of one run,
-- from Engine.Run to the end of Shutdown. Each root route has a goroutine with the emissions that it
-- has in flight; the reporter is another; the main goroutine starts them and waits. They take their
-- steps in any order.
pub mod Invariant
pub mod Orderly
pub mod WindsDown
use otel_ecom_load_genrator.Prelude.{
  ℕ, zero, suc, ◌≡◌, ◌≢◌, Bool, true, false, List, [], ◌∷◌, ◌++◌, All, if◌then◌else◌,
}
use otel_ecom_load_genrator.Prelude.Int.{ℤ, pos, ltb_ℤ}

-- The goroutine of a root route, with the number of its emissions in flight: in its select, in its
-- deferred inflight.Wait, or returned.
pub data Goroutine : Type 0 where
  selecting leaving gone : ℕ → Goroutine

-- What the main goroutine does: it has so many goroutines still to start, and waits for all when
-- there are none (wg.Wait); it waits for the reporter; it flushes (Shutdown); it has done that.
pub data MainStage : Type 0 where
  starting : ℕ → MainStage
  stopping flushing finished : MainStage

pub data ReporterState : Type 0 where
  off ticking over : ReporterState

pub data Occurrence : Type 0 where
  cancelled spawned ticked emitted left returned reported : Occurrence
  report_ended scheduler_returned run_returned shut_down : Occurrence

-- A step of a route's goroutine, or the end of one of its emissions, which may outlive it.
pub data Moves (is_cancelled : Bool) : Goroutine → Occurrence → Goroutine → Type 0 where
  tick : (k : ℕ) → Moves is_cancelled (selecting k) ticked (selecting (suc k))
  ends_selecting : (k : ℕ) → Moves is_cancelled (selecting (suc k)) emitted (selecting k)
  ends_leaving : (k : ℕ) → Moves is_cancelled (leaving (suc k)) emitted (leaving k)
  ends_gone : (k : ℕ) → Moves is_cancelled (gone (suc k)) emitted (gone k)
  leave : (k : ℕ) → is_cancelled ≡ true → Moves is_cancelled (selecting k) left (leaving k)
  return : Moves is_cancelled (leaving 0) returned (gone 0)

-- The same, of one goroutine among all.
pub data MovesOne (is_cancelled : Bool)
    : List Goroutine → Occurrence → List Goroutine → Type 0 where
  here :
      (g g' : Goroutine) (gs : List Goroutine) (e : Occurrence)
      → Moves is_cancelled g e g'
      → MovesOne is_cancelled (g ∷ gs) e (g' ∷ gs)
  there :
      (g : Goroutine) (gs gs' : List Goroutine) (e : Occurrence)
      → MovesOne is_cancelled gs e gs'
      → MovesOne is_cancelled (g ∷ gs) e (g ∷ gs')

abbrev pub IsGone : Goroutine → Type 0
IsGone (gone _) = Unit
IsGone _ = ⊥

pub record Program : Type 0 where
  pub is_cancelled : Bool
  pub goroutines : List Goroutine
  pub reporter : ReporterState
  pub main : MainStage

-- One step of the program. The context can be cancelled at any time.
pub data Turn (s : Program) : Occurrence → Program → Type 0 where
  cancel : Turn s cancelled (record s { is_cancelled = true })
  spawn :
      (n : ℕ)
      → s.main ≡ starting (suc n)
      → Turn s spawned
          (record s { main = starting n; goroutines = s.goroutines ++ selecting 0 ∷ [] })
  move :
      (e : Occurrence) (gs : List Goroutine)
      → MovesOne s.is_cancelled s.goroutines e gs
      → Turn s e (record s { goroutines = gs })
  report : s.reporter ≡ ticking → Turn s reported s
  report_ends :
      s.reporter ≡ ticking
      → s.is_cancelled ≡ true
      → Turn s report_ended (record s { reporter = over })
  -- wg.Wait of scheduler.Run
  scheduler_returns :
      s.main ≡ starting 0
      → All IsGone s.goroutines
      → Turn s scheduler_returned (record s { main = stopping })
  -- The deferred stop() of Engine.Run, where there is a reporter.
  run_returns :
      s.main ≡ stopping → s.reporter ≢ ticking → Turn s run_returned (record s { main = flushing })
  shut : s.main ≡ flushing → Turn s shut_down (record s { main = finished })

-- The steps from one state to another, in their order.
pub data Turns : Program → List Occurrence → Program → Type 0 where
  none_left : (s : Program) → Turns s [] s
  first :
      (s t u : Program) (e : Occurrence) (es : List Occurrence)
      → Turn s e t
      → Turns t es u
      → Turns s (e ∷ es) u

-- The call of Engine.Run, with so many root routes and the interval of the reports.
unfoldable pub at_start : ℕ → ℤ → Program
at_start roots every = record {
  is_cancelled = false;
  goroutines = [];
  reporter = if ltb_ℤ (pos 0) every then ticking else off;
  main = starting roots;
}
