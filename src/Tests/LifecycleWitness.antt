-- ===== src/Tests/LifecycleWitness.antt =====
-- The theorems on the goroutines of a run where one emission outlasts the loop that started it.
use otel_ecom_load_genrator.Prelude.{◌+◌, ◌≡◌, ◌⊎◌, refl, true, List, [], ◌∷◌, ◌++◌, All, length}
use otel_ecom_load_genrator.Prelude.Int.{pos}
use otel_ecom_load_genrator.Engine.Lifecycle.{
  selecting, leaving, gone, stopping, finished, starting, off, Occurrence, cancelled, spawned,
  ticked, emitted, left, returned, scheduler_returned, run_returned, shut_down, tick, ends_leaving,
  leave, return, here, Program, cancel, spawn, move, scheduler_returns, run_returns, shut, Turns,
  none_left, first, at_start,
}
use otel_ecom_load_genrator.Engine.Lifecycle.Orderly.{started, ended, IsLate, Turns-Orderly}
use otel_ecom_load_genrator.Engine.Lifecycle.WindsDown.{steps_left, CanTurn, Turns-winds_down}

-- One root route, which ticks once before the cancellation; no reports.
abbrev opening : List Occurrence
opening = spawned ∷ ticked ∷ cancelled ∷ []

abbrev closing : List Occurrence
closing = left ∷ emitted ∷ returned ∷ scheduler_returned ∷ []

abbrev after_cancel : Program
after_cancel = record {
  is_cancelled = true;
  goroutines = selecting 1 ∷ [];
  reporter = off;
  main = starting 0;
}

abbrev all_gone : Program
all_gone = record after_cancel { goroutines = gone 0 ∷ []; main = stopping }

abbrev all_flushed : Program
all_flushed = record all_gone { main = finished }

opened : Turns (at_start 1 (pos 0)) opening after_cancel
unfolding at_start
opened = first _ _ _ _ _ (spawn 0 refl) (
    first _ _ _ _ _ (move ticked (selecting 1 ∷ []) (here _ _ [] ticked (tick 0)))
      (first _ _ _ _ _ cancel (none_left after_cancel)))

closed : Turns after_cancel closing all_gone
closed = first _ _ _ _ _ (move left (leaving 1 ∷ []) (here _ _ [] left (leave 1 refl))) (
    first _ _ _ _ _ (move emitted (leaving 0 ∷ []) (here _ _ [] emitted (ends_leaving 0))) (
      first _ _ _ _ _ (move returned (gone 0 ∷ []) (here _ _ [] returned return))
        (first _ _ _ _ _ (scheduler_returns refl (tt, tt)) (none_left all_gone))))

whole_run :
    Turns (at_start 1 (pos 0)) ((opening ++ closing) ++ run_returned ∷ shut_down ∷ []) all_flushed
unfolding at_start
whole_run = first _ _ _ _ _ (spawn 0 refl) (
    first _ _ _ _ _ (move ticked (selecting 1 ∷ []) (here _ _ [] ticked (tick 0))) (
      first _ _ _ _ _ cancel (
        first _ _ _ _ _ (move left (leaving 1 ∷ []) (here _ _ [] left (leave 1 refl))) (
          first _ _ _ _ _ (move emitted (leaving 0 ∷ []) (here _ _ [] emitted (ends_leaving 0))) (
            first _ _ _ _ _ (move returned (gone 0 ∷ []) (here _ _ [] returned return)) (
              first _ _ _ _ _ (scheduler_returns refl (tt, tt)) (
                first _ _ _ _ _ (run_returns refl (λ e. cc))
                  (first _ _ _ _ _ (shut refl) (none_left all_flushed)))))))))

Turns-Orderly_example :
    (started (opening ++ closing) ≡ ended (opening ++ closing)) × All IsLate (shut_down ∷ [])
Turns-Orderly_example =
    Turns-Orderly 1 (pos 0) (opening ++ closing) (shut_down ∷ []) all_flushed whole_run

Turns-winds_down_example :
    (length closing + steps_left all_gone ≡ steps_left after_cancel)
    × ((all_gone.main ≡ finished) ⊎ CanTurn all_gone)
Turns-winds_down_example =
    Turns-winds_down 1 (pos 0) opening closing after_cancel all_gone opened refl closed
      (tt, (tt, (tt, (tt, tt))))
