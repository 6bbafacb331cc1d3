-- ===== src/Config.antt =====
-- internal/config/config.go: the topology document and the look-ups in it.
-- `F` is float64. A Go map is an association list; a `range` over it goes through the list.
pub mod Lookup
pub mod Listing
use otel_ecom_load_genrator.Prelude.{
  ◌≡◌, Bool, true, false, Option, none, some, List, [], ◌∷◌, if◌then◌else◌,
}
use otel_ecom_load_genrator.Prelude.Int.{ℤ}
use otel_ecom_load_genrator.Prelude.Text.{Text, bytes, text_eq}

-- `interface{}`: what encoding/json decodes to, and the Go types that callers may put in.
mutual
  pub data Value (F : Type 0) : Type 0 where
    null : Value F
    bool : Bool → Value F
    string : Text → Value F
    float64 : F → Value F
    int : ℤ → Value F
    int64 : ℤ → Value F
    float32 : F → Value F
    array : Values F → Value F
    strings : List Text → Value F
    bools : List Bool → Value F
    int64s : List ℤ → Value F
    float64s : List F → Value F
    other : Value F

  pub data Values (F : Type 0) : Type 0 where
    nil : Values F
    cons : Value F → Values F → Values F

abbrev pub Attributes : Type 0 → Type 0
Attributes F = List (Text × Value F)

-- m[k], with the second result of Go's look-up in the option.
unfoldable pub lookup : {V : Type 0} → Text → List (Text × V) → Option V
lookup k [] = none
lookup k ((j, v) ∷ m) = if text_eq j k then some v else lookup k m

pub record AttributeSet (F : Type 0) : Type 0 where
  pub weight : ℤ
  pub attributes : Attributes F

pub record Event (F : Type 0) : Type 0 where
  pub name : Text
  pub attributes : Attributes F

pub record EventSet (F : Type 0) : Type 0 where
  pub weight : ℤ
  pub events : List (Event F)

pub record Latency (F : Type 0) : Type 0 where
  pub p50 : ℤ
  pub p99 : ℤ
  pub outlier_rate : F
  pub outlier_multiplier : F

pub record BusinessMetric (F : Type 0) : Type 0 where
  pub name : Text
  pub kind : Text
  pub unit : Text
  pub min : F
  pub max : F

pub record RouteMetrics (F : Type 0) : Type 0 where
  pub business : List (BusinessMetric F)

pub record Route (F : Type 0) : Type 0 where
  pub route : Text
  pub span_kind : Text
  pub downstream_calls : List (Text × Text)
  pub latency : Latency F
  pub attribute_sets : List (AttributeSet F)
  pub event_sets : List (EventSet F)
  pub metrics : RouteMetrics F

pub record Service (F : Type 0) : Type 0 where
  pub service_name : Text
  pub instances : List Text
  pub tier : Text
  pub attribute_sets : List (AttributeSet F)
  pub event_sets : List (EventSet F)
  pub routes : List (Route F)

pub record Topology (F : Type 0) : Type 0 where
  pub services : List (Service F)

pub record RootRoute : Type 0 where
  pub service : Text
  pub route : Text
  pub traces_per_hour : ℤ

pub record Surge (F : Type 0) : Type 0 where
  pub every_minutes : ℤ
  pub duration_seconds : ℤ
  pub multiplier : F
  pub routes : List Text

pub record File (F : Type 0) : Type 0 where
  pub topology : Topology F
  pub root_routes : List RootRoute
  pub surges : List (Surge F)

abbrev pub error_directive_key : Text
error_directive_key = bytes "error"

-- The value is asserted to be a bool, and must be true.
unfoldable pub is_directive : {F : Type 0} → Option (Value F) → Bool
is_directive none = false
is_directive (some (bool b)) = b
is_directive (some _) = false

unfoldable pub has_error_directive : {F : Type 0} → AttributeSet F → Bool
unfolding is_directive lookup text_eq
has_error_directive a = is_directive (lookup error_directive_key a.attributes)

-- The loops of FindService and FindRoute. A nil pointer is `none`.
unfoldable pub find_service_in : {F : Type 0} → List (Service F) → Text → Option (Service F)
find_service_in [] name = none
find_service_in (s ∷ ss) name =
    if text_eq s.service_name name then some s else find_service_in ss name

unfoldable pub find_service : {F : Type 0} → Topology F → Text → Option (Service F)
unfolding find_service_in
find_service t name = find_service_in t.services name

unfoldable pub find_route_in : {F : Type 0} → List (Route F) → Text → Option (Route F)
find_route_in [] route = none
find_route_in (r ∷ rs) route = if text_eq r.route route then some r else find_route_in rs route

unfoldable pub find_route : {F : Type 0} → Service F → Text → Option (Route F)
unfolding find_route_in
find_route s route = find_route_in s.routes route
