-- ===== src/Engine/Outcome.antt =====
-- internal/engine/engine.go: resolveOutcome, statusCodeOf, errorType and spanKind.
use otel_ecom_load_genrator.Prelude.{
  ◌≡◌, Bool, false, ◌||◌, Option, none, some, arith, if◌then◌else◌,
}
use otel_ecom_load_genrator.Prelude.Int.{ℤ, pos, leb_ℤ}
use otel_ecom_load_genrator.Prelude.Text.{Text, bytes, text_eq, to_lower}
use otel_ecom_load_genrator.Prelude.Float64.{Float64}
use otel_ecom_load_genrator.Config.{
  Value, float64, int, int64, AttributeSet, lookup, has_error_directive,
}

abbrev pub code_or : Option ℤ → ℤ → ℤ
code_or none d = d
code_or (some c) d = c

module _ {F : Type 0} ⦃fl : Float64 F⦄ where
  unfoldable pub status_code : Option (Value F) → Option ℤ
  status_code (some (float64 f)) = some (fl.to_int f)
  status_code (some (int n)) = some n
  status_code (some (int64 n)) = some n
  status_code _ = none

  unfoldable pub status_code_of : AttributeSet F → Option ℤ
  unfolding status_code lookup
  status_code_of set = status_code (lookup (bytes "http.response.status_code") set.attributes)

  -- The body of the loop over the service-level and the route-level set; a nil set is skipped.
  unfoldable pub outcome_step : Option (AttributeSet F) → Bool × ℤ → Bool × ℤ
  unfolding status_code_of has_error_directive
  outcome_step none (failed, code) = (failed, code)
  outcome_step (some set) (failed, code) =
      (has_error_directive set || failed, elim (status_code_of set) [ none ↦ code | some c ↦ c ])

  unfoldable pub resolve_outcome : Option (AttributeSet F) → Option (AttributeSet F) → Bool × ℤ
  unfolding outcome_step
  resolve_outcome svc_set route_set = outcome_step route_set (outcome_step svc_set (false, pos 0))

  abbrev pub fails : Option (AttributeSet F) → Bool
  fails none = false
  fails (some set) = has_error_directive set

  abbrev pub code_of : Option (AttributeSet F) → Option ℤ
  code_of none = none
  code_of (some set) = status_code_of set

  -- A span fails exactly when one of its two sets carries the directive, and the route's status code
  -- goes before the service's, which goes before 0.
  pub resolve_outcome_lem :
      (svc_set route_set : Option (AttributeSet F))
      → ((resolve_outcome svc_set route_set).0 ≡ fails svc_set || fails route_set)
        × ((resolve_outcome svc_set route_set).1
            ≡ code_or (code_of route_set) (code_or (code_of svc_set) (pos 0)))
  unfolding resolve_outcome
  resolve_outcome_lem svc_set route_set = ground arith

unfoldable pub error_type : ℤ → Text
error_type code =
    if leb_ℤ (pos 500) code
    then bytes "upstream_unavailable"
    else if leb_ℤ (pos 400) code
    then bytes "client_error"
    else bytes "internal_error"

pub data SpanKind : Type 0 where
  internal server client producer consumer : SpanKind

unfoldable pub span_kind : Text → SpanKind
unfolding to_lower text_eq
span_kind s =
    if text_eq (to_lower s) (bytes "server")
    then server
    else if text_eq (to_lower s) (bytes "client")
    then client
    else if text_eq (to_lower s) (bytes "producer")
    then producer
    else if text_eq (to_lower s) (bytes "consumer")
    then consumer
    else internal
