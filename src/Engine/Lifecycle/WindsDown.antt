-- ===== src/Engine/Lifecycle/WindsDown.antt =====
-- After a cancellation the run ends.
use otel_ecom_load_genrator.Prelude.{
  ℕ, zero, suc, ◌+◌, ◌*◌, ◌≡◌, ◌≢◌, ◌⊎◌, refl, sym, ap, subst, Bool, true, List, [], ◌∷◌, ◌++◌, All,
  length, inl, inr, arith,
}
use otel_ecom_load_genrator.Prelude.Int.{ℤ}
use otel_ecom_load_genrator.Engine.Lifecycle.{
  Goroutine, selecting, leaving, gone, MainStage, starting, stopping, flushing, finished,
  ReporterState, off, ticking, over, Occurrence, cancelled, spawned, ticked, emitted, left,
  returned, reported, report_ended, scheduler_returned, run_returned, shut_down, Moves, tick,
  ends_selecting, ends_leaving, ends_gone, leave, return, MovesOne, here, there, IsGone, Program,
  Turn, cancel, spawn, move, report, report_ends, scheduler_returns, run_returns, shut, Turns,
  none_left, first, at_start,
}
use otel_ecom_load_genrator.Engine.Lifecycle.Invariant.{IsSettled, Inv, Turn-Inv, at_start-Inv}

-- The steps that are neither a tick of a route or of the reporter nor a cancellation.
abbrev pub IsWinding : Occurrence → Type 0
IsWinding cancelled = ⊥
IsWinding ticked = ⊥
IsWinding reported = ⊥
IsWinding _ = Unit

-- The steps that are left to each.
abbrev goroutine_left : Goroutine → ℕ
goroutine_left (selecting k) = 2 + k
goroutine_left (leaving k) = 1 + k
goroutine_left (gone k) = k

abbrev goroutines_left : List Goroutine → ℕ
goroutines_left [] = 0
goroutines_left (g ∷ gs) = goroutine_left g + goroutines_left gs

abbrev main_left : MainStage → ℕ
main_left (starting n) = 3 * n + 3
main_left stopping = 2
main_left flushing = 1
main_left finished = 0

abbrev reporter_left : ReporterState → ℕ
reporter_left ticking = 1
reporter_left _ = 0

abbrev pub steps_left : Program → ℕ
steps_left s = main_left s.main + (reporter_left s.reporter + goroutines_left s.goroutines)

Moves-left :
    (b : Bool) (g g' : Goroutine) (e : Occurrence)
    → IsWinding e
    → Moves b g e g'
    → goroutine_left g ≡ suc (goroutine_left g')
Moves-left b _ _ _ w (tick k) = absurd w
Moves-left b _ _ _ w (ends_selecting k) = omega arith
Moves-left b _ _ _ w (ends_leaving k) = omega arith
Moves-left b _ _ _ w (ends_gone k) = omega arith
Moves-left b _ _ _ w (leave k c) = omega arith
Moves-left b _ _ _ w return = omega arith

MovesOne-left :
    (b : Bool) (gs gs' : List Goroutine) (e : Occurrence)
    → IsWinding e
    → MovesOne b gs e gs'
    → goroutines_left gs ≡ suc (goroutines_left gs')
MovesOne-left b _ _ _ w (here g g' gs e m) = omega (arith, Moves-left b g g' e w m)
MovesOne-left b _ _ _ w (there g gs gs' e m) = omega (arith, MovesOne-left b gs gs' e w m)

goroutines_left-snoc :
    (gs : List Goroutine) → goroutines_left (gs ++ selecting 0 ∷ []) ≡ goroutines_left gs + 2
goroutines_left-snoc [] = refl
goroutines_left-snoc (g ∷ gs) = omega (arith, goroutines_left-snoc gs)

Turn-left :
    (s t : Program) (e : Occurrence) → IsWinding e → Turn s e t → steps_left s ≡ suc (steps_left t)
Turn-left s _ _ w cancel = absurd w
Turn-left s _ _ w (spawn n at) = omega (arith, ap main_left at, goroutines_left-snoc s.goroutines)
Turn-left s _ _ w (move e gs m) = omega (arith, MovesOne-left s.is_cancelled s.goroutines gs e w m)
Turn-left s _ _ w (report at) = absurd w
Turn-left s _ _ w (report_ends at c) = omega (arith, ap reporter_left at)
Turn-left s _ _ w (scheduler_returns at all) = omega (arith, ap main_left at)
Turn-left s _ _ w (run_returns at quiet) = omega (arith, ap main_left at)
Turn-left s _ _ w (shut at) = omega (arith, ap main_left at)

-- A step that some goroutine can take, unless all have returned.
abbrev CanMove : List Goroutine → Type 0
CanMove gs = (e : Occurrence) × (gs' : List Goroutine) × IsWinding e × MovesOne true gs e gs'

goroutine_moves : (g : Goroutine) (gs : List Goroutine) → IsSettled g → IsGone g ⊎ CanMove (g ∷ gs)
goroutine_moves (selecting k) gs h = inr (left, leaving k ∷ gs, tt, here _ _ gs left (leave k refl))
goroutine_moves (leaving zero) gs h = inr (returned, gone 0 ∷ gs, tt, here _ _ gs returned return)
goroutine_moves (leaving (suc k)) gs h =
    inr (emitted, leaving k ∷ gs, tt, here _ _ gs emitted (ends_leaving k))
goroutine_moves (gone k) gs h = inl tt

goroutines_move : (gs : List Goroutine) → All IsSettled gs → All IsGone gs ⊎ CanMove gs
goroutines_move [] h = inl tt
goroutines_move (g ∷ gs) h = elim (goroutine_moves g gs h.0) [
  | inr can ↦ inr can
  | inl done ↦ elim (goroutines_move gs h.1) [
    | inl all ↦ inl (done, all)
    | inr (e, gs', w, m) ↦ inr (e, g ∷ gs', w, there g gs gs' e m)
  ]
]

-- A step of the program.
abbrev pub CanTurn : Program → Type 0
CanTurn s = (e : Occurrence) × (t : Program) × IsWinding e × (t.is_cancelled ≡ true) × Turn s e t

stopping_turns :
    (s : Program) (r : ReporterState)
    → s.reporter ≡ r
    → s.main ≡ stopping
    → s.is_cancelled ≡ true
    → CanTurn s
stopping_turns s ticking e at c =
    (report_ended, record s { reporter = over }, tt, c, report_ends e c)
stopping_turns s off e at c =
    (run_returned, record s { main = flushing }, tt, c, run_returns at (λ e'. cc))
stopping_turns s over e at c =
    (run_returned, record s { main = flushing }, tt, c, run_returns at (λ e'. cc))

waiting_turns :
    (s : Program)
    → All IsSettled s.goroutines
    → s.main ≡ starting 0
    → s.is_cancelled ≡ true
    → CanTurn s
waiting_turns s h at c = elim (goroutines_move s.goroutines h) [
  | inl all ↦ (scheduler_returned, record s { main = stopping }, tt, c, scheduler_returns at all)
  | inr (e, gs, w, m) ↦ (
    e,
    record s { goroutines = gs },
    w,
    c,
    move e gs (subst (λ b. MovesOne b s.goroutines e gs) (sym c) m),
  )
]

-- Nothing blocks a cancelled program before Shutdown has returned.
program_turns :
    (s : Program) (m : MainStage)
    → s.main ≡ m
    → m ≢ finished
    → Inv s
    → s.is_cancelled ≡ true
    → CanTurn s
program_turns s (starting (suc n)) at unfinished h c = (spawned, _, tt, c, spawn n at)
program_turns s (starting zero) at unfinished h c = waiting_turns s h.settled at c
program_turns s stopping at unfinished h c = stopping_turns s s.reporter refl at c
program_turns s flushing at unfinished h c =
    (shut_down, record s { main = finished }, tt, c, shut at)
program_turns s finished at unfinished h c = absurd (unfinished refl)

Turn-cancelled :
    (s t : Program) (e : Occurrence) → Turn s e t → s.is_cancelled ≡ true → t.is_cancelled ≡ true
Turn-cancelled s _ _ cancel c = refl
Turn-cancelled s _ _ (spawn n at) c = c
Turn-cancelled s _ _ (move e gs m) c = c
Turn-cancelled s _ _ (report at) c = c
Turn-cancelled s _ _ (report_ends at c') c = c
Turn-cancelled s _ _ (scheduler_returns at all) c = c
Turn-cancelled s _ _ (run_returns at quiet) c = c
Turn-cancelled s _ _ (shut at) c = c

Turns-Inv : (s t : Program) (es : List Occurrence) → Turns s es t → Inv s → Inv t
Turns-Inv _ _ _ (none_left s) h = h
Turns-Inv _ _ _ (first s t u e es turn rest) h = Turns-Inv t u es rest (Turn-Inv s t e turn h)

finished_or_not : (m : MainStage) → (m ≡ finished) ⊎ (m ≢ finished)
finished_or_not (starting n) = inr (λ e. cc)
finished_or_not stopping = inr (λ e. cc)
finished_or_not flushing = inr (λ e. cc)
finished_or_not finished = inl refl

Turns-left :
    (s t : Program) (es : List Occurrence)
    → Inv s
    → s.is_cancelled ≡ true
    → Turns s es t
    → All IsWinding es
    → (length es + steps_left t ≡ steps_left s) × ((t.main ≡ finished) ⊎ CanTurn t)
Turns-left _ _ _ h c (none_left s) w = (
  omega arith,
  elim (finished_or_not s.main) [
    | inl done ↦ inl done
    | inr unfinished ↦ inr (program_turns s s.main refl unfinished h c)
  ],
)
Turns-left _ _ _ h c (first s t u e es turn rest) w =
    let (count, after) =
      Turns-left t u es (Turn-Inv s t e turn h) (Turn-cancelled s t e turn c) rest w.1 in
    (omega (arith, Turn-left s t e w.0 turn), after)

-- From any point of a run at which the context is cancelled, however the goroutines go on, each step
-- that is neither a tick nor a report nor another cancellation brings the end nearer by one, and
-- until Shutdown has returned there is such a step: no goroutine waits forever.
pub Turns-winds_down :
    (roots : ℕ) (every : ℤ) (es rest : List Occurrence) (s t : Program)
    → Turns (at_start roots every) es s
    → s.is_cancelled ≡ true
    → Turns s rest t
    → All IsWinding rest
    → (length rest + steps_left t ≡ steps_left s) × ((t.main ≡ finished) ⊎ CanTurn t)
Turns-winds_down roots every es rest s t run c later w =
    Turns-left s t rest (Turns-Inv (at_start roots every) s es run (at_start-Inv roots every)) c
      later w
