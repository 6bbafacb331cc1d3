-- ===== src/Validate/Exact.antt =====
-- Each pass over a part of the document accepts exactly the parts that are well formed.
use otel_ecom_load_genrator.Prelude.{
  sym, ◌+◌, ◌*◌, ◌%◌, ◌<◌, ap, ◌∙◌, ◌≡◌, ◌↔◌, ◌⊎◌, inl, inr, ℕ, suc, refl, true, List, [], ◌∷◌, map,
  Mem, All, arith, Bool-cases,
}
use otel_ecom_load_genrator.Prelude.Int.{
  ℤ, pos, negsuc, pos_part, of_word, wrap64, int64_half, int64_mod, ◌+ℤ◌, ◌*ℤ◌, ◌≤ℤ◌, ◌<ℤ◌, ltb_ℤ,
}
use otel_ecom_load_genrator.Prelude.Text.{Text, bytes, text_eq_iff}
use otel_ecom_load_genrator.Prelude.Float64.{Float64}
use otel_ecom_load_genrator.Config.{
  AttributeSet, EventSet, Latency, BusinessMetric, RootRoute, Surge, File,
}
use otel_ecom_load_genrator.Validate.Verdict.{
  Place, Accepts, require, >>-Accepts_iff, require-Accepts_iff, surge_unknown_route,
}
use otel_ecom_load_genrator.Validate.Parts.{
  sum, negative_at, weigh, check_attribute_weights, check_event_weights, check_attributes,
  check_events, validate_weighted, validate_latency, is_metric_kind, validate_business_metric,
  is_root_route, check_surge_routes, validate_surge,
}
use otel_ecom_load_genrator.Validate.Meaning.{
  LatencyOk, MetricOk, SurgeOk, exact_sum, WeightsOk, attribute_weights, event_weights,
}

module _ {F : Type 0} ⦃fl : Float64 F⦄ where
  pub validate_latency_iff :
      (p : Place) (l : Latency F) → Accepts (validate_latency p l) ↔ LatencyOk l
  unfolding validate_latency
  validate_latency_iff p l = ground arith

  pub validate_business_metric_iff :
      (p : Place) (k : ℕ) (m : BusinessMetric F)
      → Accepts (validate_business_metric p k m) ↔ MetricOk m
  unfolding validate_business_metric is_metric_kind
  validate_business_metric_iff p k m = ground (
    arith,
    text_eq_iff m.name [],
    text_eq_iff m.kind (bytes "counter"),
    text_eq_iff m.kind (bytes "histogram"),
  )

is_root_route_iff :
    (want : Text) (roots : List RootRoute)
    → (is_root_route want roots ≡ true) ↔ Mem want (map (λ (rr : RootRoute). rr.route) roots)
unfolding is_root_route
is_root_route_iff want [] = (λ h. cc, λ h. absurd h)
is_root_route_iff want (rr ∷ rest) = (
  λ h. ground (arith, text_eq_iff rr.route want, is_root_route_iff want rest),
  λ h. ground (arith, text_eq_iff rr.route want, is_root_route_iff want rest),
)

check_surge_routes_iff :
    (i : ℕ) (roots : List RootRoute) (wants : List Text)
    → Accepts (check_surge_routes i roots wants)
      ↔ All (λ r. Mem r (map (λ (rr : RootRoute). rr.route) roots)) wants
unfolding check_surge_routes
check_surge_routes_iff i roots [] = (λ _. tt, λ _. refl)
check_surge_routes_iff i roots (want ∷ rest) = ground (
  arith,
  >>-Accepts_iff (require (is_root_route want roots) (surge_unknown_route i want))
      (check_surge_routes i roots rest),
  require-Accepts_iff (is_root_route want roots) (surge_unknown_route i want),
  is_root_route_iff want roots,
  check_surge_routes_iff i roots rest,
)

-- The period in seconds as the program computes it, against the exact one.
shorter_iff :
    (d e : ℤ)
    → pos 0 <ℤ d
    → pos 0 <ℤ e
    → (d <ℤ e *ℤ pos 60)
      ↔ ((pos_part e * 60 % int64_mod < int64_half) × (pos_part d < pos_part e * 60 % int64_mod))
unfolding ◌*ℤ◌ wrap64
shorter_iff (pos d) (pos e) hd he = ground arith
shorter_iff (negsuc d) e hd he = absurd (omega arith)
shorter_iff (pos d) (negsuc e) hd he = absurd (omega arith)

module _ {F : Type 0} ⦃fl : Float64 F⦄ where
  pub validate_surge_iff :
      (i : ℕ) (s : Surge F) (f : File F) → Accepts (validate_surge i s f) ↔ SurgeOk f s
  unfolding validate_surge
  validate_surge_iff i s f = ground (
    arith,
    shorter_iff s.duration_seconds s.every_minutes,
    check_surge_routes_iff i f.root_routes s.routes,
  )

-- The sum that the loop computes.
abbrev pub total_from : ℤ → List ℤ → ℤ
total_from total [] = total
total_from total (w ∷ ws) = total_from (total +ℤ w) ws

add_word : (w n : ℕ) → w < int64_mod → of_word w +ℤ pos n ≡ of_word ((w + n) % int64_mod)
unfolding ◌+ℤ◌ wrap64
add_word w n h = ap of_word (ground arith)

-- A sum from the 64-bit pattern w on.
total_from-exact :
    (w : ℕ) (ws : List ℤ)
    → w < int64_mod
    → All (λ x. pos 0 ≤ℤ x) ws
    → total_from (of_word w) ws ≡ of_word ((w + exact_sum ws) % int64_mod)
total_from-exact w [] h all = ap of_word (omega arith)
total_from-exact w (negsuc n ∷ ws) h all = absurd (omega (arith, all.0))
total_from-exact w (pos n ∷ ws) h all =
    let next = (w + n) % int64_mod in
    let same : (next + exact_sum ws) % int64_mod ≡ (w + (n + exact_sum ws)) % int64_mod =
      omega arith in
    ap (λ total. total_from total ws) (add_word w n h)
    ∙ (total_from-exact next ws (omega arith) all.1 ∙ ap of_word same)

of_word_zero : (w : ℕ) → w < int64_mod → (of_word w ≡ pos 0) ↔ (w ≡ 0)
of_word_zero w h = ground arith

total_from-zero_iff :
    (ws : List ℤ)
    → All (λ x. pos 0 ≤ℤ x) ws
    → (total_from (pos 0) ws ≡ pos 0) ↔ (exact_sum ws % int64_mod ≡ 0)
total_from-zero_iff ws all =
    let drop : 0 + exact_sum ws ≡ exact_sum ws = omega arith in
    let exact = total_from-exact 0 ws (omega arith) all ∙ ap (λ x. of_word (x % int64_mod)) drop in
    let zero = of_word_zero (exact_sum ws % int64_mod) (omega arith) in
    (λ h. zero.0 (sym exact ∙ h), λ h. exact ∙ zero.1 h)

-- The weighing loop: the wrapped sum, or the index of a negative weight.
weigh-cases :
    (i : ℕ) (total : ℤ) (ws : List ℤ)
    → (weigh i total ws ≡ sum (total_from total ws)) × All (λ x. pos 0 ≤ℤ x) ws
      ⊎ ((j : ℕ) × (weigh i total ws ≡ negative_at j)) × (¬ All (λ x. pos 0 ≤ℤ x) ws)
unfolding weigh
weigh-cases i total [] = inl (refl, tt)
weigh-cases i total (w ∷ ws) = elim (Bool-cases (ltb_ℤ w (pos 0))) [
  | inl e ↦ inr ((i, ground arith), λ h. ground arith)
  | inr e ↦ elim (weigh-cases (suc i) (total +ℤ w) ws) [
    | inl (eq, h) ↦ inl (ground arith, (ground arith, h))
    | inr ((j, eq), h) ↦ inr ((j, ground arith), λ all. h all.1)
  ]
]

check_attribute_weights_iff :
    (p : Place) (w : ℤ) (ws : List ℤ)
    → Accepts (check_attribute_weights p (weigh 0 (pos 0) (w ∷ ws))) ↔ WeightsOk (w ∷ ws)
unfolding check_attribute_weights
check_attribute_weights_iff p w ws = elim (weigh-cases 0 (pos 0) (w ∷ ws)) [
  | inl (eq, h) ↦ let zero = total_from-zero_iff (w ∷ ws) h in ground arith
  | inr ((j, eq), h) ↦ ground arith
]

check_event_weights_iff :
    (p : Place) (w : ℤ) (ws : List ℤ)
    → Accepts (check_event_weights p (weigh 0 (pos 0) (w ∷ ws))) ↔ WeightsOk (w ∷ ws)
unfolding check_event_weights
check_event_weights_iff p w ws = elim (weigh-cases 0 (pos 0) (w ∷ ws)) [
  | inl (eq, h) ↦ let zero = total_from-zero_iff (w ∷ ws) h in ground arith
  | inr ((j, eq), h) ↦ ground arith
]

module _ {F : Type 0} where
  check_attributes_iff :
      (p : Place) (sets : List (AttributeSet F))
      → Accepts (check_attributes p sets) ↔ WeightsOk (attribute_weights sets)
  unfolding check_attributes
  check_attributes_iff p [] = (λ _. tt, λ _. refl)
  check_attributes_iff p (s ∷ sets) =
      check_attribute_weights_iff p s.weight (attribute_weights sets)

  check_events_iff :
      (p : Place) (sets : List (EventSet F))
      → Accepts (check_events p sets) ↔ WeightsOk (event_weights sets)
  unfolding check_events
  check_events_iff p [] = (λ _. tt, λ _. refl)
  check_events_iff p (s ∷ sets) = check_event_weights_iff p s.weight (event_weights sets)

  pub validate_weighted_iff :
      (p : Place) (attrs : List (AttributeSet F)) (events : List (EventSet F))
      → Accepts (validate_weighted p attrs events)
        ↔ (WeightsOk (attribute_weights attrs) × WeightsOk (event_weights events))
  unfolding validate_weighted
  validate_weighted_iff p attrs events = ground (
    arith,
    >>-Accepts_iff (check_attributes p attrs) (check_events p events),
    check_attributes_iff p attrs,
    check_events_iff p events,
  )
