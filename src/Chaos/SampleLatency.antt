-- ===== src/Chaos/SampleLatency.antt =====
-- internal/chaos/chaos.go: SampleLatencyMillis. The results of its calls of Float64 are arguments.
use otel_ecom_load_genrator.Prelude.{
  ℕ, ◌≤◌, ◌+◌, ◌<◌, ◌≡◌, Bool, true, false, ◌&&◌, if◌then◌else◌, arith,
}
use otel_ecom_load_genrator.Prelude.Int.{ℤ, pos, ◌+ℤ◌, ◌≤ℤ◌, ◌<ℤ◌, ltb_ℤ, leb_ℤ, eqb_ℤ, pos_add}
use otel_ecom_load_genrator.Prelude.Float64.{Float64}
use otel_ecom_load_genrator.Config.{Latency}

-- The draws in [0, 1): which half, where in the half, and whether an outlier.
pub record Draws (F : Type 0) : Type 0 where
  pub side : F
  pub position : F
  pub outlier : F

-- The two bounds after the guards.
unfoldable pub clamp_p50 : ℤ → ℤ
clamp_p50 p50 = if ltb_ℤ p50 (pos 1) then pos 1 else p50

unfoldable pub clamp_p99 : ℤ → ℤ → ℤ
clamp_p99 p50 p99 = if ltb_ℤ p99 p50 then p50 else p99

module _ {F : Type 0} ⦃fl : Float64 F⦄ where
  -- math.Exp(lo + Float64()*(hi-lo))
  unfoldable pub log_uniform : F → F → F → F
  log_uniform lo hi u = fl.exp (fl.add lo (fl.mul u (fl.sub hi lo)))

  unfoldable pub base_latency : ℤ → ℤ → Draws F → F
  unfolding log_uniform
  base_latency p50 p99 d =
      if eqb_ℤ p99 p50
      then fl.of_int p50
      else if fl.lt d.side fl.half
      then log_uniform
          (fl.log (fl.max (fl.of_int (pos 1)) (fl.div (fl.of_int p50) (fl.of_int (pos 4)))))
          (fl.log (fl.of_int p50)) d.position
      else log_uniform (fl.log (fl.of_int p50)) (fl.log (fl.of_int p99)) d.position

  unfoldable pub is_outlier : Latency F → Draws F → Bool
  is_outlier l d =
      fl.lt (fl.of_int (pos 0)) l.outlier_rate
      && (fl.lt (fl.of_int (pos 1)) l.outlier_multiplier && fl.lt d.outlier l.outlier_rate)

  unfoldable pub stretch : Latency F → ℤ → F → F
  stretch l p99 ms =
      let longer = fl.mul ms l.outlier_multiplier in
      if leb_ℤ (fl.to_int longer) p99 then fl.of_int (p99 +ℤ pos 1) else longer

  unfoldable pub round_up : F → ℤ
  round_up ms = let out = fl.to_int (fl.round ms) in if ltb_ℤ out (pos 1) then pos 1 else out

  unfoldable pub sample_latency_millis : Latency F → Draws F → ℤ
  unfolding clamp_p50 clamp_p99 base_latency is_outlier stretch round_up
  sample_latency_millis l d =
      let p50 = clamp_p50 l.p50 in
      let p99 = clamp_p99 p50 l.p99 in
      let ms = base_latency p50 p99 d in round_up (if is_outlier l d then stretch l p99 ms else ms)

-- A whole number below 2^53 goes to float64 and back unchanged, rounded or not, and rounding does
-- not bring a value whose whole part is above n >= 1 down to n.
pub record Rounds (F : Type 0) ⦃fl : Float64 F⦄ : Type 0 where
  pub whole_round :
      (n : ℕ) → n < 9007199254740992 → fl.to_int (fl.round (fl.of_int (pos n))) ≡ pos n
  pub above : (f : F) (n : ℤ) → pos 1 ≤ℤ n → n <ℤ fl.to_int f → n <ℤ fl.to_int (fl.round f)

module _ {F : Type 0} ⦃fl : Float64 F⦄ where
  round_up_positive : (ms : F) → pos 1 ≤ℤ round_up ms
  unfolding round_up
  round_up_positive ms = ground arith

  stretch-beyond :
      (l : Latency F) (p99 : ℕ) (ms : F)
      → Rounds F
      → 0 < p99
      → p99 + 1 < 9007199254740992
      → pos p99 <ℤ fl.to_int (fl.round (stretch l (pos p99) ms))
  unfolding stretch
  stretch-beyond l p99 ms laws positive small = ground (
    arith,
    laws.whole_round (p99 + 1),
    laws.above (fl.mul ms l.outlier_multiplier) (pos p99),
    pos_add p99 1,
  )

  -- With validated bounds and p99 + 1 below 2^53, a drawn outlier is at least 1 ms and beyond p99.
  pub sample_latency_millis-outlier :
      (l : Latency F) (d : Draws F) (p50 p99 : ℕ)
      → Rounds F
      → (l.p50 ≡ pos p50) × (l.p99 ≡ pos p99)
      → (0 < p50) × (p50 ≤ p99) × (p99 + 1 < 9007199254740992)
      → is_outlier l d ≡ true
      → pos p99 <ℤ sample_latency_millis l d
  unfolding sample_latency_millis
  sample_latency_millis-outlier l d p50 p99 laws (e50, e99) (positive, order, small) out =
      let same50 : clamp_p50 l.p50 ≡ pos p50 = unfold clamp_p50 in ground arith in
      let same99 : clamp_p99 (pos p50) l.p99 ≡ pos p99 = unfold clamp_p99 in ground arith in
      rw (same50, same99, out)
        (unfold round_up in
          ground (arith, stretch-beyond l p99 (base_latency (pos p50) (pos p99) d)))

  -- Where p50 and p99 are one positive value below 2^53 and no outlier is drawn, that value is the sample,
  -- whatever the other draws are.
  pub sample_latency_millis-fixed :
      (l : Latency F) (d : Draws F) (p50 : ℕ)
      → Rounds F
      → (l.p50 ≡ pos p50) × (l.p99 ≡ pos p50)
      → (0 < p50) × (p50 < 9007199254740992)
      → is_outlier l d ≡ false
      → sample_latency_millis l d ≡ pos p50
  unfolding sample_latency_millis
  sample_latency_millis-fixed l d p50 laws (e50, e99) (positive, small) calm =
      let same50 : clamp_p50 l.p50 ≡ pos p50 = unfold clamp_p50 in ground arith in
      let same99 : clamp_p99 (pos p50) l.p99 ≡ pos p50 = unfold clamp_p99 in ground arith in
      rw (same50, same99, calm)
        (unfold round_up base_latency in ground (arith, laws.whole_round p50))

  -- Whatever the configuration, the draws and the float64 operations give, a sample is at least 1 ms.
  pub sample_latency_millis_positive :
      (l : Latency F) (d : Draws F) → pos 1 ≤ℤ sample_latency_millis l d
  unfolding sample_latency_millis
  sample_latency_millis_positive l d = round_up_positive _
