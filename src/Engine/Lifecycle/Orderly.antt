-- ===== src/Engine/Lifecycle/Orderly.antt =====
-- When Engine.Run returns, all that it started has ended.
use otel_ecom_load_genrator.Prelude.{
  ℕ, ◌+◌, ◌≡◌, ◌≢◌, refl, subst, Bool, List, [], ◌∷◌, ◌++◌, All, arith,
}
use otel_ecom_load_genrator.Prelude.Int.{ℤ}
use otel_ecom_load_genrator.Engine.Lifecycle.{
  Goroutine, selecting, leaving, gone, MainStage, starting, stopping, flushing, finished, ticking,
  Occurrence, cancelled, ticked, emitted, run_returned, shut_down, Moves, tick, ends_selecting,
  ends_leaving, ends_gone, leave, return, MovesOne, here, there, IsGone, Program, Turn, cancel,
  spawn, move, report, report_ends, scheduler_returns, run_returns, shut, Turns, none_left, first,
  at_start,
}
use otel_ecom_load_genrator.Engine.Lifecycle.Invariant.{
  IsSettled, Inv, StageOk, Turn-Inv, MovesOne-none, at_start-Inv,
}

-- The emissions that an occurrence starts, and that it ends.
abbrev starts : Occurrence → ℕ
starts ticked = 1
starts _ = 0

abbrev ends : Occurrence → ℕ
ends emitted = 1
ends _ = 0

abbrev pub started : List Occurrence → ℕ
started [] = 0
started (e ∷ es) = starts e + started es

abbrev pub ended : List Occurrence → ℕ
ended [] = 0
ended (e ∷ es) = ends e + ended es

-- What may still happen once Engine.Run has returned.
abbrev pub IsLate : Occurrence → Type 0
IsLate cancelled = Unit
IsLate shut_down = Unit
IsLate _ = ⊥

abbrev flights : Goroutine → ℕ
flights (selecting k) = k
flights (leaving k) = k
flights (gone k) = k

abbrev in_flight : List Goroutine → ℕ
in_flight [] = 0
in_flight (g ∷ gs) = flights g + in_flight gs

Moves-flights :
    (b : Bool) (g g' : Goroutine) (e : Occurrence)
    → Moves b g e g'
    → starts e + flights g ≡ ends e + flights g'
Moves-flights b _ _ _ (tick k) = omega arith
Moves-flights b _ _ _ (ends_selecting k) = omega arith
Moves-flights b _ _ _ (ends_leaving k) = omega arith
Moves-flights b _ _ _ (ends_gone k) = omega arith
Moves-flights b _ _ _ (leave k c) = refl
Moves-flights b _ _ _ return = refl

MovesOne-in_flight :
    (b : Bool) (gs gs' : List Goroutine) (e : Occurrence)
    → MovesOne b gs e gs'
    → starts e + in_flight gs ≡ ends e + in_flight gs'
MovesOne-in_flight b _ _ _ (here g g' gs e m) = omega (arith, Moves-flights b g g' e m)
MovesOne-in_flight b _ _ _ (there g gs gs' e m) = omega (arith, MovesOne-in_flight b gs gs' e m)

in_flight-snoc : (gs : List Goroutine) → in_flight (gs ++ selecting 0 ∷ []) ≡ in_flight gs
in_flight-snoc [] = refl
in_flight-snoc (g ∷ gs) = omega (arith, in_flight-snoc gs)

Turn-in_flight :
    (s t : Program) (e : Occurrence)
    → Turn s e t
    → starts e + in_flight s.goroutines ≡ ends e + in_flight t.goroutines
Turn-in_flight s _ _ cancel = refl
Turn-in_flight s _ _ (spawn n at) = omega (arith, in_flight-snoc s.goroutines)
Turn-in_flight s _ _ (move e gs m) = MovesOne-in_flight s.is_cancelled s.goroutines gs e m
Turn-in_flight s _ _ (report at) = refl
Turn-in_flight s _ _ (report_ends at c) = refl
Turn-in_flight s _ _ (scheduler_returns at all) = refl
Turn-in_flight s _ _ (run_returns at quiet) = refl
Turn-in_flight s _ _ (shut at) = refl

in_flight-none : (gs : List Goroutine) → All IsGone gs → All IsSettled gs → in_flight gs ≡ 0
in_flight-none [] done h = refl
in_flight-none (gone k ∷ gs) done h = omega (arith, h.0, in_flight-none gs done.1 h.1)
in_flight-none (selecting k ∷ gs) done h = absurd done.0
in_flight-none (leaving k ∷ gs) done h = absurd done.0

-- No goroutine of a route makes Engine.Run return.
MovesOne-not_run : (b : Bool) (gs gs' : List Goroutine) → ¬ MovesOne b gs run_returned gs'
MovesOne-not_run b _ _ (here g _ gs _ m) = elim m [ ]
MovesOne-not_run b _ _ (there g gs gs' e m) = MovesOne-not_run b gs gs' m

-- Once Engine.Run has returned.
abbrev Returned : MainStage → Type 0
Returned flushing = Unit
Returned finished = Unit
Returned _ = ⊥

Returned-stage :
    (s : Program) (m : MainStage)
    → Returned m
    → StageOk s m
    → All IsGone s.goroutines × (s.reporter ≢ ticking)
Returned-stage s flushing r ok = ok
Returned-stage s finished r ok = ok
Returned-stage s (starting n) r ok = absurd r
Returned-stage s stopping r ok = absurd r

Turn-IsLate :
    (s t : Program) (e : Occurrence)
    → Inv s
    → Returned s.main
    → Turn s e t
    → IsLate e × Returned t.main
Turn-IsLate s _ _ h r cancel = (tt, r)
Turn-IsLate s _ _ h r (spawn n at) = absurd (subst Returned at r)
Turn-IsLate s _ _ h r (move e gs m) = absurd (
    MovesOne-none s.is_cancelled s.goroutines gs e (Returned-stage s s.main r h.stage).0 h.settled
      m)
Turn-IsLate s _ _ h r (report at) = absurd ((Returned-stage s s.main r h.stage).1 at)
Turn-IsLate s _ _ h r (report_ends at c) = absurd ((Returned-stage s s.main r h.stage).1 at)
Turn-IsLate s _ _ h r (scheduler_returns at all) = absurd (subst Returned at r)
Turn-IsLate s _ _ h r (run_returns at quiet) = absurd (subst Returned at r)
Turn-IsLate s _ _ h r (shut at) = (tt, tt)

Turns-IsLate :
    (s t : Program) (es : List Occurrence) → Inv s → Returned s.main → Turns s es t → All IsLate es
Turns-IsLate _ _ _ h r (none_left s) = tt
Turns-IsLate _ _ _ h r (first s t u e es turn rest) =
    let (late, r') = Turn-IsLate s t e h r turn in
    (late, Turns-IsLate t u es (Turn-Inv s t e turn h) r' rest)

-- The turn in which Engine.Run returns.
Turn-run_returned :
    (s t : Program) → Inv s → Turn s run_returned t → (in_flight s.goroutines ≡ 0) × Returned t.main
Turn-run_returned s _ h (move e gs m) = absurd (MovesOne-not_run s.is_cancelled s.goroutines gs m)
Turn-run_returned s _ h (run_returns at quiet) =
    (in_flight-none s.goroutines (subst (StageOk s) at h.stage) h.settled, tt)

Turns-Orderly_from :
    (before after : List Occurrence) (s t : Program)
    → Inv s
    → Turns s (before ++ run_returned ∷ after) t
    → (started before + in_flight s.goroutines ≡ ended before) × All IsLate after
Turns-Orderly_from [] after s t h (first _ u _ _ _ turn rest) =
    let (none, r) = Turn-run_returned s u h turn in
    (omega arith, Turns-IsLate u t after (Turn-Inv s u run_returned turn h) r rest)
Turns-Orderly_from (e ∷ es) after s t h (first _ u _ _ _ turn rest) =
    let (count, late) = Turns-Orderly_from es after u t (Turn-Inv s u e turn h) rest in
    (omega (arith, Turn-in_flight s u e turn), late)

-- In every order in which the goroutines of a run take their steps, by the time that Engine.Run
-- returns as many emissions have ended as ticks have started, and after it nothing is emitted and no
-- progress is reported: only Shutdown is left, and perhaps a cancellation.
pub Turns-Orderly :
    (roots : ℕ) (every : ℤ) (before after : List Occurrence) (t : Program)
    → Turns (at_start roots every) (before ++ run_returned ∷ after) t
    → (started before ≡ ended before) × All IsLate after
unfolding at_start
Turns-Orderly roots every before after t h =
    let (count, late) =
      Turns-Orderly_from before after (at_start roots every) t (at_start-Inv roots every) h in
    (omega arith, late)
