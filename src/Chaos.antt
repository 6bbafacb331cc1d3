-- ===== src/Chaos.antt =====
-- internal/chaos/chaos.go. The draws of math/rand/v2 are arguments: `draw n` is what rand.IntN(n)
-- returns for n > 0, and the uniform float64 draws come one by one.
pub mod Pick
pub mod Sets
pub mod SampleLatency
use otel_ecom_load_genrator.Prelude.{
  ℕ, zero, suc, ◌<◌, Bool, true, false, ◌&&◌, Option, none, some, List, [], ◌∷◌, map, if◌then◌else◌,
  length, get_elem?,
}
use otel_ecom_load_genrator.Prelude.Int.{ℤ, pos, negsuc, ◌+ℤ◌, ◌-ℤ◌, ltb_ℤ, leb_ℤ, eqb_ℤ, pos_part}
use otel_ecom_load_genrator.Prelude.Text.{Text}
use otel_ecom_load_genrator.Prelude.Float64.{Float64}
use otel_ecom_load_genrator.Config.{AttributeSet, EventSet}

-- rand.IntN on a positive argument: a number below it, as its documentation says.
abbrev pub Source : Type 0
Source = ℕ → ℕ

abbrev pub InRange : Source → Type 0
InRange draw = (n : ℕ) → 0 < n → draw n < n

unfoldable pub intn : Source → ℤ → ℤ
intn draw n = if leb_ℤ n (pos 1) then pos 0 else pos (draw (pos_part n))

-- The bounds are in order.
unfoldable pub int_range_ordered : Source → ℤ → ℤ → ℤ
unfolding intn
int_range_ordered draw lo hi = if eqb_ℤ lo hi then lo else lo +ℤ intn draw ((hi -ℤ lo) +ℤ pos 1)

unfoldable pub int_range : Source → ℤ → ℤ → ℤ
unfolding int_range_ordered
int_range draw lo hi =
    if ltb_ℤ hi lo then int_range_ordered draw hi lo else int_range_ordered draw lo hi

-- The first loop of PickWeighted.
unfoldable pub total_weight : ℤ → List ℤ → ℤ
total_weight total [] = total
total_weight total (w ∷ ws) = total_weight (if ltb_ℤ (pos 0) w then total +ℤ w else total) ws

-- The second loop: `none` where it runs to the end.
unfoldable pub pick_from : ℕ → ℤ → List ℤ → Option ℕ
pick_from i r [] = none
pick_from i r (w ∷ ws) =
    let skip = pick_from (suc i) r ws in
    let next = pick_from (suc i) (r -ℤ w) ws in
    if leb_ℤ w (pos 0) then skip else if ltb_ℤ (r -ℤ w) (pos 0) then some i else next

-- len(weights) - 1, for a list that is not empty; on the empty one the total is 0.
unfoldable pub last_index : List ℤ → ℤ
last_index ws = pos (length ws) -ℤ pos 1

unfoldable pub pick_weighted : Source → List ℤ → ℤ
unfolding total_weight pick_from intn last_index
pick_weighted draw ws =
    let total = total_weight (pos 0) ws in
    if eqb_ℤ total (pos 0)
    then negsuc 0
    else elim (pick_from 0 (intn draw total) ws) [ none ↦ last_index ws | some i ↦ pos i ]

-- &sets[idx], and nil for a negative index.
unfoldable pub at_index : {A : Type 0} → List A → ℤ → Option A
at_index xs (pos i) = get_elem? xs i
at_index xs (negsuc _) = none

module _ {F : Type 0} where
  unfoldable pub pick_attribute_set : Source → List (AttributeSet F) → Option (AttributeSet F)
  unfolding pick_weighted at_index
  pick_attribute_set draw [] = none
  pick_attribute_set draw (s ∷ ss) =
      at_index (s ∷ ss) (pick_weighted draw (map (λ (x : AttributeSet F). x.weight) (s ∷ ss)))

  unfoldable pub pick_event_set : Source → List (EventSet F) → Option (EventSet F)
  unfolding pick_weighted at_index
  pick_event_set draw [] = none
  pick_event_set draw (s ∷ ss) =
      at_index (s ∷ ss) (pick_weighted draw (map (λ (x : EventSet F). x.weight) (s ∷ ss)))

-- instances[Intn(len(instances))]; "" stands for an index out of range.
unfoldable pub pick_instance : Source → List Text → Text
unfolding intn at_index
pick_instance draw [] = []
pick_instance draw (i ∷ is) = elim (at_index (i ∷ is) (intn draw (pos (length (i ∷ is))))) [
  | none ↦ []
  | some x ↦ x
]
