-- ===== src/Engine/Lifecycle/Invariant.antt =====
-- What holds of the program at every point of a run.
use otel_ecom_load_genrator.Prelude.{
  ℕ, ◌≡◌, ◌≢◌, refl, subst, Bool, true, List, [], ◌∷◌, ◌++◌, All, arith,
}
use otel_ecom_load_genrator.Prelude.Int.{ℤ}
use otel_ecom_load_genrator.Engine.Lifecycle.{
  Goroutine, selecting, gone, MainStage, starting, stopping, flushing, finished, ReporterState,
  ticking, over, Occurrence, Moves, tick, ends_selecting, ends_leaving, ends_gone, leave, return,
  MovesOne, here, there, IsGone, Program, Turn, cancel, spawn, move, report, report_ends,
  scheduler_returns, run_returns, shut, at_start,
}

-- A goroutine that has returned has no emission in flight.
abbrev pub IsSettled : Goroutine → Type 0
IsSettled (gone k) = k ≡ 0
IsSettled _ = Unit

-- The scheduler has returned, so every goroutine has; Engine.Run has, so the reporter has as well.
abbrev pub StageOk : Program → MainStage → Type 0
StageOk s (starting n) = Unit
StageOk s stopping = All IsGone s.goroutines
StageOk s flushing = All IsGone s.goroutines × (s.reporter ≢ ticking)
StageOk s finished = All IsGone s.goroutines × (s.reporter ≢ ticking)

pub record Inv (s : Program) : Type 0 where
  pub settled : All IsSettled s.goroutines
  pub stage : StageOk s s.main

Moves-IsSettled :
    (b : Bool) (g g' : Goroutine) (e : Occurrence) → Moves b g e g' → IsSettled g → IsSettled g'
Moves-IsSettled b _ _ _ (tick k) h = tt
Moves-IsSettled b _ _ _ (ends_selecting k) h = tt
Moves-IsSettled b _ _ _ (ends_leaving k) h = tt
Moves-IsSettled b _ _ _ (ends_gone k) h = absurd (omega (arith, h))
Moves-IsSettled b _ _ _ (leave k c) h = tt
Moves-IsSettled b _ _ _ return h = refl

MovesOne-IsSettled :
    (b : Bool) (gs gs' : List Goroutine) (e : Occurrence)
    → MovesOne b gs e gs'
    → All IsSettled gs
    → All IsSettled gs'
MovesOne-IsSettled b _ _ _ (here g g' gs e m) h = (Moves-IsSettled b g g' e m h.0, h.1)
MovesOne-IsSettled b _ _ _ (there g gs gs' e m) h = (h.0, MovesOne-IsSettled b gs gs' e m h.1)

-- Where all have returned and none has an emission in flight, none takes a step.
pub MovesOne-none :
    (b : Bool) (gs gs' : List Goroutine) (e : Occurrence)
    → All IsGone gs
    → All IsSettled gs
    → ¬ MovesOne b gs e gs'
MovesOne-none b _ _ _ done h (here _ _ gs e (tick k)) = absurd done.0
MovesOne-none b _ _ _ done h (here _ _ gs e (ends_selecting k)) = absurd done.0
MovesOne-none b _ _ _ done h (here _ _ gs e (ends_leaving k)) = absurd done.0
MovesOne-none b _ _ _ done h (here _ _ gs e (ends_gone k)) = absurd (omega (arith, h.0))
MovesOne-none b _ _ _ done h (here _ _ gs e (leave k c)) = absurd done.0
MovesOne-none b _ _ _ done h (here _ _ gs e return) = absurd done.0
MovesOne-none b _ _ _ done h (there g gs gs' e m) = MovesOne-none b gs gs' e done.1 h.1 m

All-snoc : (gs : List Goroutine) → All IsSettled gs → All IsSettled (gs ++ selecting 0 ∷ [])
All-snoc [] h = (tt, tt)
All-snoc (g ∷ gs) h = (h.0, All-snoc gs h.1)

-- A step of a goroutine where none can take one.
move-StageOk :
    (s : Program) (gs : List Goroutine) (e : Occurrence) (m : MainStage)
    → MovesOne s.is_cancelled s.goroutines e gs
    → All IsSettled s.goroutines
    → StageOk s m
    → StageOk (record s { goroutines = gs }) m
move-StageOk s gs e (starting n) moved h ok = tt
move-StageOk s gs e stopping moved h ok =
    absurd (MovesOne-none s.is_cancelled s.goroutines gs e ok h moved)
move-StageOk s gs e flushing moved h ok =
    absurd (MovesOne-none s.is_cancelled s.goroutines gs e ok.0 h moved)
move-StageOk s gs e finished moved h ok =
    absurd (MovesOne-none s.is_cancelled s.goroutines gs e ok.0 h moved)

-- The steps that change neither the goroutines nor the stage.
same-StageOk :
    (s : Program) (b : Bool) (r : ReporterState) (m : MainStage)
    → (s.reporter ≢ ticking → r ≢ ticking)
    → StageOk s m
    → StageOk (record s { is_cancelled = b; reporter = r }) m
same-StageOk s b r (starting n) f ok = tt
same-StageOk s b r stopping f ok = ok
same-StageOk s b r flushing f ok = (ok.0, f ok.1)
same-StageOk s b r finished f ok = (ok.0, f ok.1)

pub Turn-Inv : (s t : Program) (e : Occurrence) → Turn s e t → Inv s → Inv t
Turn-Inv s _ _ cancel h = record {
  settled = h.settled;
  stage = same-StageOk s true s.reporter s.main (λ f. f) h.stage;
}
Turn-Inv s _ _ (spawn n at) h = record { settled = All-snoc s.goroutines h.settled; stage = tt }
Turn-Inv s _ _ (move e gs m) h = record {
  settled = MovesOne-IsSettled s.is_cancelled s.goroutines gs e m h.settled;
  stage = move-StageOk s gs e s.main m h.settled h.stage;
}
Turn-Inv s _ _ (report at) h = h
Turn-Inv s _ _ (report_ends at c) h = record {
  settled = h.settled;
  stage = same-StageOk s s.is_cancelled over s.main (λ f e. cc) h.stage;
}
Turn-Inv s _ _ (scheduler_returns at all) h = record { settled = h.settled; stage = all }
Turn-Inv s _ _ (run_returns at quiet) h = record {
  settled = h.settled;
  stage = (subst (StageOk s) at h.stage, quiet);
}
Turn-Inv s _ _ (shut at) h = record { settled = h.settled; stage = subst (StageOk s) at h.stage }

pub at_start-Inv : (roots : ℕ) (every : ℤ) → Inv (at_start roots every)
unfolding at_start
at_start-Inv roots every = record { settled = tt; stage = tt }
