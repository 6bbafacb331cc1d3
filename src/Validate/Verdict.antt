-- ===== src/Validate/Verdict.antt =====
-- internal/config/validate.go: what a validation pass returns, warnings beside at most one error.
-- A message is a constructor with the values it names; the printed float64 values are left out.
use otel_ecom_load_genrator.Prelude.{
  ℕ, ◌≡◌, ◌↔◌, refl, Bool, true, false, Option, none, some, List, [], ◌∷◌, ◌++◌, arith,
}
use otel_ecom_load_genrator.Prelude.Int.{ℤ}
use otel_ecom_load_genrator.Prelude.Text.{Text}

-- One (service, route) pair of the call graph.
pub record Node : Type 0 where
  pub service : Text
  pub route : Text

-- "services[s]" and "services[s].routes[r]".
pub data Place : Type 0 where
  at_service : Text → Place
  at_route : Text → Text → Place

pub data Sets : Type 0 where
  attribute_sets event_sets : Sets

pub data Error : Type 0 where
  nil_topology no_services no_root_routes : Error
  empty_service_name : ℕ → Error
  duplicate_service no_instances no_routes : Text → Error
  empty_instance : Text → ℕ → Error
  negative_weight : Place → Sets → ℕ → Error
  no_positive_weight : Place → Sets → Error
  empty_route : Text → ℕ → Error
  duplicate_route : Text → Text → Error
  invalid_span_kind : Text → Text → Text → Error
  p50_too_small : Place → ℤ → Error
  p99_below_p50 : Place → ℤ → ℤ → Error
  outlier_rate_range outlier_multiplier_range : Place → Error
  empty_metric_name metric_bounds : Place → ℕ → Error
  invalid_metric_kind : Place → ℕ → Text → Error
  unknown_downstream_service : Node → Text → Error
  unknown_downstream_route : Node → Text → Text → Error
  unknown_root_service : ℕ → Text → Error
  unknown_root_route : ℕ → Text → Text → Error
  root_rate : ℕ → Error
  cycle : List Node → Node → Error
  surge_period surge_duration surge_multiplier : ℕ → Error
  surge_too_long : ℕ → ℤ → ℤ → Error
  surge_unknown_route : ℕ → Text → Error
  out_of_fuel : Error

pub data Warning : Type 0 where
  weights_not_100 : Place → ℤ → Warning
  unreachable_service : Text → Warning

pub record Report : Type 0 where
  pub warnings : List Warning
  pub error : Option Error

abbrev pub pass : Report
pass = record { warnings = []; error = none }

abbrev pub fail : Error → Report
fail e = record { warnings = []; error = some e }

abbrev pub warn : Warning → Report
warn w = record { warnings = w ∷ []; error = none }

abbrev pub require : Bool → Error → Report
require true e = pass
require false e = fail e

-- `if err != nil { return warnings, err }`: the first error ends the validation, and the
-- warnings up to it are kept.
infixl 5 ◌>>◌
unfoldable pub ◌>>◌ : Report → Report → Report
r >> k = elim r.error [
  | none ↦ record { warnings = r.warnings ++ k.warnings; error = k.error }
  | some e ↦ record { warnings = r.warnings; error = some e }
]

-- A pass that accepts is one whose steps all accept.
abbrev pub Accepts : Report → Type 0
Accepts r = r.error ≡ none

pub >>-Accepts : (r k : Report) → Accepts (r >> k) → Accepts r × Accepts k
unfolding ◌>>◌
>>-Accepts r k h = ground arith

pub Accepts->> : (r k : Report) → Accepts r → Accepts k → Accepts (r >> k)
unfolding ◌>>◌
Accepts->> r k h h' = ground arith

pub require-Accepts : (b : Bool) (e : Error) → Accepts (require b e) → b ≡ true
require-Accepts true e h = refl
require-Accepts false e h = cc

pub >>-Accepts_iff : (r k : Report) → Accepts (r >> k) ↔ (Accepts r × Accepts k)
>>-Accepts_iff r k = (>>-Accepts r k, λ h. Accepts->> r k h.0 h.1)

pub require-Accepts_iff : (b : Bool) (e : Error) → Accepts (require b e) ↔ (b ≡ true)
require-Accepts_iff b e = ground arith
