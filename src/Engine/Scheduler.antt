-- ===== src/Engine/Scheduler.antt =====
-- internal/engine/scheduler.go: tick intervals, surge multipliers, and the loop of one root route.
-- A time.Duration is its count of nanoseconds, an int64. Time since the start is a number.
pub mod Windows
pub mod Loop
pub mod Run
pub mod RunLaws
pub mod Reports
use otel_ecom_load_genrator.Prelude.{
  ℕ, zero, suc, ◌/◌, ◌%◌, Bool, true, false, ◌&&◌, ◌||◌, List, [], ◌∷◌, ◌++◌, if◌then◌else◌, ltb,
  not,
}
use otel_ecom_load_genrator.Prelude.Int.{ℤ, pos, pos_part, ◌*ℤ◌, ltb_ℤ, leb_ℤ, eqb_ℤ}
use otel_ecom_load_genrator.Prelude.Text.{Text, text_eq, contains}
use otel_ecom_load_genrator.Prelude.Float64.{Float64}
use otel_ecom_load_genrator.Config.{RootRoute, Surge}

-- 100 microseconds, an hour, a minute and a second.
abbrev pub min_interval : ℕ
min_interval = 100_000

abbrev pub hour : ℕ
hour = 3_600_000_000_000

abbrev pub minute : ℕ
minute = 60_000_000_000

abbrev pub second : ℕ
second = 1_000_000_000

unfoldable pub interval_for : ℤ → ℤ
interval_for traces_per_hour =
    if leb_ℤ traces_per_hour (pos 0)
    then pos hour
    else if ltb (hour / pos_part traces_per_hour) min_interval
    then pos min_interval
    else pos (hour / pos_part traces_per_hour)

unfoldable pub surge_applies : {F : Type 0} → Surge F → Text → Bool
unfolding contains
surge_applies s route = elim s.routes [ [] ↦ true | r ∷ rs ↦ contains route (r ∷ rs) ]

-- The window of a surge, at an offset from the start; a period that is not positive never opens.
unfoldable pub is_open : {F : Type 0} → Surge F → ℕ → Bool
is_open s since =
    let period = s.every_minutes *ℤ pos minute in
    if leb_ℤ period (pos 0)
    then false
    else ltb_ℤ (pos (since % pos_part period)) (s.duration_seconds *ℤ pos second)

module _ {F : Type 0} ⦃fl : Float64 F⦄ where
  unfoldable pub multiply_surges : List (Surge F) → Text → ℕ → F → F
  unfolding surge_applies is_open
  multiply_surges [] route since mult = mult
  multiply_surges (s ∷ ss) route since mult =
      multiply_surges ss route since
        (if surge_applies s route && is_open s since then fl.mul mult s.multiplier else mult)

  unfoldable pub multiplier_at : List (Surge F) → Text → ℕ → F
  unfolding multiply_surges
  multiplier_at surges route since = multiply_surges surges route since (fl.of_int (pos 1))

  unfoldable pub effective_interval : List (Surge F) → ℤ → Text → ℕ → ℤ
  unfolding multiplier_at
  effective_interval surges base route since =
      let mult = multiplier_at surges route since in
      let d = fl.to_int (fl.div (fl.of_int base) mult) in
      if fl.le mult (fl.of_int (pos 1))
      then base
      else if ltb_ℤ d (pos min_interval)
      then pos min_interval
      else d

-- What wakes the loop of runRoute, with the time since the start at which it reads the clock.
pub data Wake : Type 0 where
  cancelled : Wake
  tick : ℕ → Wake

-- What the loop does: start an emission, or set the ticker to another interval.
pub data Action : Type 0 where
  emit : Text → Text → Action
  reset : ℤ → Action

pub record Ticking : Type 0 where
  pub current : ℤ
  pub actions : List Action
  pub stopped : Bool

module _ {F : Type 0} ⦃fl : Float64 F⦄ where
  unfoldable pub on_wake : List (Surge F) → RootRoute → Wake → Ticking → Ticking
  unfolding interval_for effective_interval
  on_wake surges root cancelled s = record s { stopped = true }
  on_wake surges root (tick since) s =
      let next = effective_interval surges (interval_for root.traces_per_hour) root.route since in
      if eqb_ℤ next s.current
      then record s { actions = s.actions ++ emit root.service root.route ∷ [] }
      else record s {
        current = next;
        actions = s.actions ++ emit root.service root.route ∷ reset next ∷ [];
      }

  -- The `for` loop, which the first cancellation ends.
  unfoldable pub run_loop : List (Surge F) → RootRoute → List Wake → Ticking → Ticking
  unfolding on_wake
  run_loop surges root [] s = s
  run_loop surges root (w ∷ ws) s =
      let s' = on_wake surges root w s in
      let rest = run_loop surges root ws s' in if s'.stopped then s' else rest

  unfoldable pub run_route : List (Surge F) → RootRoute → ℕ → List Wake → Ticking
  unfolding run_loop
  run_route surges root since wakes = run_loop surges root wakes (record {
    current = effective_interval surges (interval_for root.traces_per_hour) root.route since;
    actions = [];
    stopped = false;
  })
