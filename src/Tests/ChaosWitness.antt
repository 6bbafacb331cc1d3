-- ===== src/Tests/ChaosWitness.antt =====
-- The theorems on the selections at concrete weights, bounds and latencies.
use otel_ecom_load_genrator.Prelude.{ℕ, ◌<◌, ◌≡◌, refl, List, [], ◌∷◌, arith}
use otel_ecom_load_genrator.Prelude.Int.{ℤ, pos, negsuc, ◌+ℤ◌, wrap64}
use otel_ecom_load_genrator.Prelude.Text.{bytes}
use otel_ecom_load_genrator.Config.{AttributeSet, EventSet}
use otel_ecom_load_genrator.Validate.Verdict.{at_service, Accepts, ◌>>◌}
use otel_ecom_load_genrator.Validate.Parts.{validate_weighted}
use otel_ecom_load_genrator.Chaos.Sets.{Picks, validate_weighted-Picks}
use otel_ecom_load_genrator.Chaos.{pick_weighted, intn, pick_attribute_set, pick_event_set}
use otel_ecom_load_genrator.Chaos.Pick.{wsum, Covers, pick_weighted-Covers}
use otel_ecom_load_genrator.Tests.Sample.{whole, lowest, lowest-InRange}

abbrev weights : List ℤ
weights = pos 0 ∷ negsuc 4 ∷ pos 7 ∷ pos 93 ∷ []

pick_weighted-Covers_example :
    (r k : ℕ) × (intn lowest (pos (wsum weights)) ≡ pos r)
    × (r < wsum weights)
    × (pick_weighted lowest weights ≡ pos k)
    × Covers weights r k
    × ((j : ℕ) → Covers weights r j → j ≡ k)
pick_weighted-Covers_example =
    pick_weighted-Covers lowest weights lowest-InRange (omega arith) (omega arith)

abbrev sets : List (AttributeSet ℤ)
sets =
    record { weight = pos 0; attributes = [] } ∷ record { weight = pos 100; attributes = [] } ∷ []

abbrev none_declared : List (EventSet ℤ)
none_declared = []

sets-accepted : Accepts (validate_weighted (at_service (bytes "web")) sets none_declared)
unfolding validate_weighted ◌+ℤ◌ wrap64 ◌>>◌
sets-accepted = refl

validate_weighted-Picks_example :
    Picks (λ (x : AttributeSet ℤ). x.weight) sets (pick_attribute_set lowest sets)
    × Picks (λ (x : EventSet ℤ). x.weight) [] (pick_event_set lowest [])
validate_weighted-Picks_example =
    validate_weighted-Picks (at_service (bytes "web")) lowest lowest sets none_declared
      lowest-InRange lowest-InRange sets-accepted (omega arith) (omega arith)
