-- ===== src/Engine/Scheduler/Loop.antt =====
-- The loop of one root route: one emission for each tick before the cancellation, none after it, and
-- a ticker that always has the interval of the last clock reading.
use otel_ecom_load_genrator.Prelude.{
  ℕ, ◌≡◌, Bool, true, false, List, [], ◌∷◌, ◌++◌, arith, if◌then◌else◌, append_assoc, append-nil,
  sym, ◌∙◌,
}
use otel_ecom_load_genrator.Prelude.Int.{ℤ, eqb_ℤ, eqb_ℤ→eq}
use otel_ecom_load_genrator.Prelude.Float64.{Float64}
use otel_ecom_load_genrator.Config.{RootRoute, Surge}
use otel_ecom_load_genrator.Engine.Scheduler.{
  Wake, cancelled, tick, Action, emit, reset, Ticking, on_wake, run_loop, run_route, interval_for,
  effective_interval,
}

-- The clock readings of the ticks before the first cancellation.
abbrev pub heard : List Wake → List ℕ
heard [] = []
heard (cancelled ∷ ws) = []
heard (tick since ∷ ws) = since ∷ heard ws

abbrev pub is_cancelled : List Wake → Bool
is_cancelled [] = false
is_cancelled (cancelled ∷ ws) = true
is_cancelled (tick _ ∷ ws) = is_cancelled ws

module _ {F : Type 0} ⦃fl : Float64 F⦄ (surges : List (Surge F)) (root : RootRoute) where
  abbrev pub interval_at : ℕ → ℤ
  interval_at since = effective_interval surges (interval_for root.traces_per_hour) root.route since

  -- What the ticks ask for: an emission each, and a reset where the interval changes.
  abbrev pub one_tick : ℤ → ℕ → List Action
  one_tick current since =
      emit root.service root.route
      ∷ (if eqb_ℤ (interval_at since) current then [] else reset (interval_at since) ∷ [])

  abbrev pub asked : ℤ → List ℕ → List Action
  asked current [] = []
  asked current (since ∷ rest) = one_tick current since ++ asked (interval_at since) rest

  abbrev pub last_interval : ℤ → List ℕ → ℤ
  last_interval current [] = current
  last_interval current (since ∷ rest) = last_interval (interval_at since) rest

  on_tick :
      (since : ℕ) (s : Ticking)
      → on_wake surges root (tick since) s ≡ record {
        current = interval_at since;
        actions = s.actions ++ one_tick s.current since;
        stopped = s.stopped;
      }
  unfolding on_wake
  on_tick since s = ground (arith, eqb_ℤ→eq (interval_at since) s.current)

  run_loop_lem :
      (ws : List Wake) (current : ℤ) (done : List Action)
      → run_loop surges root ws (record { current = current; actions = done; stopped = false })
        ≡ record {
          current = last_interval current (heard ws);
          actions = done ++ asked current (heard ws);
          stopped = is_cancelled ws;
        }
  unfolding run_loop
  run_loop_lem [] current done =
      λ i. record { current = current; actions = sym (append-nil done) i; stopped = false }
  run_loop_lem (cancelled ∷ ws) current done =
      unfold on_wake in
      λ i. record { current = current; actions = sym (append-nil done) i; stopped = true }
  run_loop_lem (tick since ∷ ws) current done =
      rw (on_tick since (record { current = current; actions = done; stopped = false })) (
        run_loop_lem ws (interval_at since) (done ++ one_tick current since) ∙ (λ i. record {
          current = last_interval (interval_at since) (heard ws);
          actions =
              append_assoc done (one_tick current since) (asked (interval_at since) (heard ws)) i;
          stopped = is_cancelled ws;
        }))

-- The goroutine of a root route emits once for each tick that it hears before the cancellation, and
-- nothing afterwards; after each tick it resets the ticker exactly when the effective interval at
-- that time differs from the one in force; it stops only by a cancellation.
pub run_route_lem :
    {F : Type 0} ⦃fl : Float64 F⦄ (surges : List (Surge F)) (root : RootRoute) (since : ℕ)
    (ws : List Wake)
    → run_route surges root since ws ≡ record {
      current = last_interval surges root (interval_at surges root since) (heard ws);
      actions = asked surges root (interval_at surges root since) (heard ws);
      stopped = is_cancelled ws;
    }
unfolding run_route
run_route_lem surges root since ws = run_loop_lem surges root ws (interval_at surges root since) []
