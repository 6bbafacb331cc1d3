-- ===== src/Chaos/Sets.antt =====
-- What the pickers return for the lists of an accepted document.
use otel_ecom_load_genrator.Prelude.{
  ℕ, zero, suc, ◌<◌, ◌≡◌, ◌≢◌, inl, inr, ◌⊎◌, refl, sym, subst, Option, none, some, List, [], ◌∷◌,
  map, arith, Mem, get_elem?, length,
}
use mathlib.Core.Option.{some-injective}
use otel_ecom_load_genrator.Prelude.Int.{ℤ, pos, ◌≤ℤ◌, int64_half}
use otel_ecom_load_genrator.Prelude.Text.{Text}
use otel_ecom_load_genrator.Config.{AttributeSet, EventSet}
use otel_ecom_load_genrator.Validate.Meaning.{
  WeightsOk, exact_sum, attribute_weights, event_weights,
}
use otel_ecom_load_genrator.Prelude.Float64.{Float64}
use otel_ecom_load_genrator.Validate.Verdict.{Place, Accepts}
use otel_ecom_load_genrator.Validate.Parts.{validate_weighted}
use otel_ecom_load_genrator.Validate.Exact.{validate_weighted_iff}
use otel_ecom_load_genrator.Chaos.{
  Source, InRange, intn, pick_weighted, at_index, pick_attribute_set, pick_event_set, pick_instance,
}
use otel_ecom_load_genrator.Chaos.Pick.{wsum, pick_weighted-Covers}

exact_sum-wsum : (ws : List ℤ) → exact_sum ws ≡ wsum ws
exact_sum-wsum [] = refl
exact_sum-wsum (w ∷ ws) = let rest = exact_sum-wsum ws in omega arith

-- A list of weights that validation accepts has a positive sum, where it does not overflow.
some_weight : (ws : List ℤ) → ws ≢ [] → WeightsOk ws → wsum ws < int64_half → 0 < wsum ws
some_weight [] present ok small = absurd (present refl)
some_weight (w ∷ ws) present (each, total) small =
    let exact = exact_sum-wsum (w ∷ ws) in omega (arith, total)

module _ {A : Type 0} where
  get_elem?-map :
      (f : A → ℤ) (xs : List A) (k : ℕ) (w : ℤ)
      → get_elem? (map f xs) k ≡ some w
      → (x : A) × (get_elem? xs k ≡ some x) × (f x ≡ w) × Mem x xs
  get_elem?-map f [] k w e = cc
  get_elem?-map f (x ∷ xs) zero w e = (x, refl, some-injective _ _ e, inl refl)
  get_elem?-map f (x ∷ xs) (suc k) w e =
      let (y, at, weight, m) = get_elem?-map f xs k w e in (y, at, weight, inr m)

  get_elem?-lt :
      (xs : List A) (k : ℕ) → k < length xs → (x : A) × (get_elem? xs k ≡ some x) × Mem x xs
  get_elem?-lt [] k h = absurd (omega arith)
  get_elem?-lt (x ∷ xs) zero h = (x, refl, inl refl)
  get_elem?-lt (x ∷ xs) (suc k) h =
      let (y, at, m) = get_elem?-lt xs k (omega arith) in (y, at, inr m)

  pick-selectable :
      (f : A → ℤ) (draw : Source) (xs : List A)
      → InRange draw
      → xs ≢ []
      → WeightsOk (map f xs)
      → wsum (map f xs) < int64_half
      → (x : A) × (at_index xs (pick_weighted draw (map f xs)) ≡ some x) × Mem x xs × (pos 1 ≤ℤ f x)
  unfolding at_index
  pick-selectable f draw [] h present ok small = absurd (present refl)
  pick-selectable f draw (y ∷ ys) h present ok small =
      let ws = map f (y ∷ ys) in
      let (r, k, _, _, picked, c, _) =
        pick_weighted-Covers draw ws h (some_weight ws (λ e. cc) ok small) small in
      let (x, at, weight, m) = get_elem?-map f (y ∷ ys) k c.weight c.at in
      let low = c.low in let high = c.high in (x, ground arith, m, ground arith)

-- From a list of attribute sets that is not empty, that validation accepts, and whose weights sum to
-- less than 2^63, PickAttributeSet always returns one of the sets, of a positive weight.
pub pick_attribute_set-mem :
    {F : Type 0} (draw : Source) (sets : List (AttributeSet F))
    → InRange draw
    → sets ≢ []
    → WeightsOk (attribute_weights sets)
    → wsum (attribute_weights sets) < int64_half
    → (set : AttributeSet F) × (pick_attribute_set draw sets ≡ some set)
      × Mem set sets
      × (pos 1 ≤ℤ set.weight)
unfolding pick_attribute_set
pick_attribute_set-mem draw [] h present ok small = absurd (present refl)
pick_attribute_set-mem {F} draw (s ∷ ss) h present ok small =
    pick-selectable (λ (x : AttributeSet F). x.weight) draw (s ∷ ss) h present ok small

-- The same of PickEventSet.
pub pick_event_set-mem :
    {F : Type 0} (draw : Source) (sets : List (EventSet F))
    → InRange draw
    → sets ≢ []
    → WeightsOk (event_weights sets)
    → wsum (event_weights sets) < int64_half
    → (set : EventSet F) × (pick_event_set draw sets ≡ some set)
      × Mem set sets
      × (pos 1 ≤ℤ set.weight)
unfolding pick_event_set
pick_event_set-mem draw [] h present ok small = absurd (present refl)
pick_event_set-mem {F} draw (s ∷ ss) h present ok small =
    pick-selectable (λ (x : EventSet F). x.weight) draw (s ∷ ss) h present ok small

-- What a picker returns: nothing from an empty list, and otherwise one of its sets, of a positive
-- weight.
abbrev pub Picks : {A : Type 0} → (A → ℤ) → List A → Option A → Type 0
Picks {A} weight sets out =
    ((sets ≡ []) × (out ≡ none))
    ⊎ ((set : A) × (out ≡ some set) × Mem set sets × (pos 1 ≤ℤ weight set))

attribute_sets-Picks :
    {F : Type 0} (draw : Source) (sets : List (AttributeSet F))
    → InRange draw
    → WeightsOk (attribute_weights sets)
    → wsum (attribute_weights sets) < int64_half
    → Picks (λ (x : AttributeSet F). x.weight) sets (pick_attribute_set draw sets)
unfolding pick_attribute_set
attribute_sets-Picks draw [] h ok small = inl (refl, refl)
attribute_sets-Picks draw (x ∷ xs) h ok small =
    inr (pick_attribute_set-mem draw (x ∷ xs) h (λ e. cc) ok small)

event_sets-Picks :
    {F : Type 0} (draw : Source) (sets : List (EventSet F))
    → InRange draw
    → WeightsOk (event_weights sets)
    → wsum (event_weights sets) < int64_half
    → Picks (λ (x : EventSet F). x.weight) sets (pick_event_set draw sets)
unfolding pick_event_set
event_sets-Picks draw [] h ok small = inl (refl, refl)
event_sets-Picks draw (x ∷ xs) h ok small =
    inr (pick_event_set-mem draw (x ∷ xs) h (λ e. cc) ok small)

-- Where validateWeighted accepts the attribute sets and event sets of a service or a route, and the
-- weights of each sum to less than 2^63, PickAttributeSet and PickEventSet return one of them, of a
-- positive weight, and nothing exactly where there are none, whatever number is drawn.
pub validate_weighted-Picks :
    {F : Type 0} ⦃fl : Float64 F⦄ (p : Place) (draw draw' : Source) (attrs : List (AttributeSet F))
    (events : List (EventSet F))
    → InRange draw
    → InRange draw'
    → Accepts (validate_weighted p attrs events)
    → wsum (attribute_weights attrs) < int64_half
    → wsum (event_weights events) < int64_half
    → Picks (λ (x : AttributeSet F). x.weight) attrs (pick_attribute_set draw attrs)
      × Picks (λ (x : EventSet F). x.weight) events (pick_event_set draw' events)
validate_weighted-Picks {F} p draw draw' attrs events h h' accepted small small' =
    let (attrs_ok, events_ok) = (validate_weighted_iff p attrs events).0 accepted in
    (
      attribute_sets-Picks draw attrs h attrs_ok small,
      event_sets-Picks draw' events h' events_ok small',
    )

-- PickInstance returns one of the declared instances, and never indexes out of range.
pub pick_instance-mem :
    (draw : Source) (instances : List Text)
    → InRange draw
    → instances ≢ []
    → Mem (pick_instance draw instances) instances
unfolding pick_instance intn at_index
pick_instance-mem draw [] h present = absurd (present refl)
pick_instance-mem draw (i ∷ []) h present = inl refl
pick_instance-mem draw (i ∷ j ∷ is) h present =
    let n = suc (suc (length is)) in
    let (x, at, m) = get_elem?-lt (i ∷ j ∷ is) (draw n) (h n (omega arith)) in
    subst (λ r. Mem r (i ∷ j ∷ is)) (sym (picked x at)) m
  where
    picked :
        (x : Text)
        → get_elem? (i ∷ j ∷ is) (draw (suc (suc (length is)))) ≡ some x
        → pick_instance draw (i ∷ j ∷ is) ≡ x
    picked x at = ground arith
