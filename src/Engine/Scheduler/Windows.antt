-- ===== src/Engine/Scheduler/Windows.antt =====
-- Intervals and surge windows.
use otel_ecom_load_genrator.Prelude.{
  ℕ, suc, ◌+◌, ◌*◌, ◌/◌, ◌%◌, ◌≤◌, ◌<◌, ◌≡◌, ◌↔◌, refl, true, false, List, [], ◌∷◌, arith, All, ltb,
  ltb→lt, lt→ltb, Bool-cases, inl, inr, sym, ◌∙◌, ◌&&◌,
}
use otel_ecom_load_genrator.Prelude.Int.{ℤ, pos, ◌≤ℤ◌, int64_half, pos_mul}
use otel_ecom_load_genrator.Prelude.Text.{Text}
use otel_ecom_load_genrator.Prelude.Float64.{Float64}
use otel_ecom_load_genrator.Config.{Surge, RootRoute}
use otel_ecom_load_genrator.Engine.Scheduler.{
  min_interval, hour, minute, second, interval_for, surge_applies, is_open, multiply_surges,
  multiplier_at, effective_interval,
}

quotient_bounds : (a b : ℕ) → 0 < b → ((a / b) * b ≤ a) × (a < (a / b) * b + b)
quotient_bounds a b h = grind arith

too_fast : (rate q : ℕ) → rate ≤ 36_000_000 → q < min_interval → hour < q * rate + rate → ⊥
too_fast rate q h small above = omega (arith, mul_mono rate q h small)
  where
    mul_mono : (r x : ℕ) → r ≤ 36_000_000 → x < min_interval → x * r + r ≤ 3_600_000_000_000
    mul_mono r x h k = grind arith

mod_of_window : (k p since : ℕ) → k * p ≤ since → since < suc k * p → since % p + k * p ≡ since
mod_of_window k p since low high = grind arith

-- A positive rate of at most 36 million an hour is met up to the rounding of the interval to whole
-- nanoseconds, by an interval between the floor and an hour.
pub interval_for_bounds :
    (rate : ℕ)
    → 0 < rate
    → rate ≤ 36_000_000
    → (interval : ℕ) × (interval_for (pos rate) ≡ pos interval)
      × (min_interval ≤ interval)
      × (interval ≤ hour)
      × (interval * rate ≤ hour)
      × (hour < interval * rate + rate)
unfolding interval_for
interval_for_bounds rate positive slow =
    let (low, high) = quotient_bounds hour rate positive in
    elim (Bool-cases (ltb (hour / rate) min_interval)) [
      | inl e ↦ absurd (too_fast rate (hour / rate) slow (ltb→lt _ _ e) high)
      | inr e ↦ (hour / rate, ground arith, ground arith, grind (arith, low), low, high)
    ]

window_of : (a b : ℕ) → 0 < b → ((a / b) * b ≤ a) × (a < suc (a / b) * b)
window_of a b h = grind arith

window_low :
    (since period duration : ℕ)
    → 0 < period
    → since % period < duration
    → since < (since / period) * period + duration
window_low since period duration h k = grind arith

window_high :
    (k period duration since : ℕ)
    → k * period ≤ since
    → since < k * period + duration
    → since < suc k * period
    → since % period < duration
window_high k period duration since low open_until high =
    omega (arith, mod_of_window k period since low high)

module _ {F : Type 0} where
  -- A surge whose period is positive and whose period and duration fit in a Duration is open exactly in the first `seconds` of
  -- each period of `minutes`, counted from the start.
  pub is_open_iff :
      (s : Surge F) (minutes seconds since : ℕ)
      → (s.every_minutes ≡ pos minutes) × (s.duration_seconds ≡ pos seconds)
      → (0 < minutes) × (minutes * minute < int64_half) × (seconds * second < int64_half)
      → (is_open s since ≡ true) ↔ (
          (k : ℕ) × (k * (minutes * minute) ≤ since)
          × (since < k * (minutes * minute) + seconds * second)
          × (since < suc k * (minutes * minute)))
  unfolding is_open
  is_open_iff s minutes seconds since (em, es) (positive, small, small') =
      let period = minutes * minute in
      let duration = seconds * second in
      let tested : is_open s since ≡ ltb (since % period) duration =
        ground (arith, pos_mul minutes minute, pos_mul seconds second) in
      (
        λ h. (
          since / period,
          (window_of since period (omega arith)).0,
          window_low since period duration (omega arith) (ltb→lt _ _ (sym tested ∙ h)),
          (window_of since period (omega arith)).1,
        ),
        λ (k, low, open_until, high).
            tested ∙ lt→ltb _ _ (window_high k period duration since low open_until high),
      )

module _ {F : Type 0} ⦃fl : Float64 F⦄ where
  abbrev pub Closed : List (Surge F) → Text → ℕ → Type 0
  Closed surges route since =
      All (λ (s : Surge F). (surge_applies s route && is_open s since) ≡ false) surges

  multiply_surges-Closed :
      (surges : List (Surge F)) (route : Text) (since : ℕ) (mult : F)
      → Closed surges route since
      → multiply_surges surges route since mult ≡ mult
  unfolding multiply_surges
  multiply_surges-Closed [] route since mult h = refl
  multiply_surges-Closed (s ∷ ss) route since mult h =
      ground (arith, multiply_surges-Closed ss route since mult h.1)

  -- Outside every window of the surges that cover a route its base interval is used, if 1.0 <= 1.0.
  pub effective_interval-Closed :
      (surges : List (Surge F)) (base : ℤ) (route : Text) (since : ℕ)
      → fl.le (fl.of_int (pos 1)) (fl.of_int (pos 1)) ≡ true
      → Closed surges route since
      → effective_interval surges base route since ≡ base
  unfolding effective_interval multiplier_at
  effective_interval-Closed surges base route since one closed =
      ground (arith, multiply_surges-Closed surges route since (fl.of_int (pos 1)) closed)

  -- No multiplier brings the interval of a route below the floor, which a zero ticker would break.
  pub effective_interval-floor :
      (surges : List (Surge F)) (root : RootRoute) (since : ℕ)
      → pos min_interval
        ≤ℤ effective_interval surges (interval_for root.traces_per_hour) root.route since
  unfolding effective_interval interval_for
  effective_interval-floor surges root since = ground arith
