-- ===== src/Telemetry/Attributes.antt =====
-- internal/telemetry/attributes.go: decoded JSON values to OpenTelemetry attributes.
pub mod Laws
pub mod Slices
use otel_ecom_load_genrator.Prelude.{
  ℕ, zero, suc, ◌+◌, ◌/◌, ◌%◌, Bool, true, false, not, ◌&&◌, ◌||◌, Option, none, some, List, [],
  ◌∷◌, map, ◌==◌, if◌then◌else◌,
}
use otel_ecom_load_genrator.Prelude.Int.{ℤ, pos, negsuc, int64_half}
use otel_ecom_load_genrator.Prelude.Text.{Text, bytes, text_eq}
use otel_ecom_load_genrator.Prelude.Float64.{Float64}
use otel_ecom_load_genrator.Config.{
  Value, null, bool, string, float64, int, int64, float32, array, strings, bools, int64s, float64s,
  other, Values, nil, cons, Attributes, error_directive_key,
}

-- attribute.Value: the typed values that OpenTelemetry has.
pub data AttributeValue (F : Type 0) : Type 0 where
  of_bool : Bool → AttributeValue F
  of_string : Text → AttributeValue F
  of_int64 : ℤ → AttributeValue F
  of_float64 : F → AttributeValue F
  of_bools : List Bool → AttributeValue F
  of_strings : List Text → AttributeValue F
  of_int64s : List ℤ → AttributeValue F
  of_float64s : List F → AttributeValue F

pub record KeyValue (F : Type 0) : Type 0 where
  pub key : Text
  pub value : AttributeValue F

-- strconv.FormatInt(n, 10). The fuel is one more than the number, so it never runs out.
unfoldable pub digits : ℕ → ℕ → Text → Text
digits zero n out = out
digits (suc fuel) n out =
    let more = digits fuel (n / 10) ((48 + n % 10) ∷ out) in
    if n / 10 == 0 then (48 + n % 10) ∷ out else more

unfoldable pub format_int : ℤ → Text
unfolding digits
format_int (pos n) = digits (suc n) n []
format_int (negsuc n) = 45 ∷ digits (suc (suc n)) (suc n) []

module _ {F : Type 0} ⦃fl : Float64 F⦄ where
  unfoldable pub is_integral : F → Bool
  is_integral f =
      if fl.is_nan f || fl.is_inf f
      then false
      else if not (fl.eq f (fl.trunc f))
      then false
      else fl.le (fl.of_int (negsuc 9223372036854775807)) f
        && fl.le f (fl.of_int (pos 9223372036854775807))

  unfoldable pub stringify : Value F → Text
  unfolding is_integral format_int
  stringify (string s) = s
  stringify (bool b) = if b then bytes "true" else bytes "false"
  stringify (float64 f) = if is_integral f then format_int (fl.to_int f) else fl.format f
  stringify null = bytes ""
  stringify _ = bytes "unsupported"

  unfoldable pub stringify_slice : Values F → List Text
  unfolding stringify
  stringify_slice nil = []
  stringify_slice (cons v vs) = stringify v ∷ stringify_slice vs

-- The loops with a type assertion: `none` where an element has another type.
module _ {F : Type 0} where
  unfoldable pub all_bools : Values F → Option (List Bool)
  all_bools nil = some []
  all_bools (cons (bool b) vs) = elim (all_bools vs) [ none ↦ none | some bs ↦ some (b ∷ bs) ]
  all_bools (cons _ vs) = none

  unfoldable pub all_strings : Values F → Option (List Text)
  all_strings nil = some []
  all_strings (cons (string s) vs) = elim (all_strings vs) [ none ↦ none | some ss ↦ some (s ∷ ss) ]
  all_strings (cons _ vs) = none

  unfoldable pub all_numbers : Values F → Option (List F)
  all_numbers nil = some []
  all_numbers (cons (float64 f) vs) = elim (all_numbers vs) [
    | none ↦ none
    | some fs ↦ some (f ∷ fs)
  ]
  all_numbers (cons _ vs) = none

module _ {F : Type 0} ⦃fl : Float64 F⦄ where
  unfoldable pub all_integral : List F → Bool
  unfolding is_integral
  all_integral [] = true
  all_integral (f ∷ fs) = is_integral f && all_integral fs

  unfoldable pub convert_number_slice : Values F → AttributeValue F
  unfolding all_numbers all_integral stringify_slice
  convert_number_slice vs = elim (all_numbers vs) [
    | none ↦ of_strings (stringify_slice vs)
    | some fs ↦ if all_integral fs then of_int64s (map fl.to_int fs) else of_float64s fs
  ]

  -- The switch is on the type of the first element.
  unfoldable pub convert_slice : Values F → Option (AttributeValue F)
  unfolding all_bools all_strings convert_number_slice
  convert_slice nil = none
  convert_slice (cons (bool b) vs) = elim (all_bools (cons (bool b) vs)) [
    | none ↦ some (of_strings (stringify_slice (cons (bool b) vs)))
    | some bs ↦ some (of_bools bs)
  ]
  convert_slice (cons (string s) vs) = elim (all_strings (cons (string s) vs)) [
    | none ↦ some (of_strings (stringify_slice (cons (string s) vs)))
    | some ss ↦ some (of_strings ss)
  ]
  convert_slice (cons (float64 f) vs) = some (convert_number_slice (cons (float64 f) vs))
  convert_slice (cons v vs) = some (of_strings (stringify_slice (cons v vs)))

  unfoldable pub convert_one : Value F → Option (AttributeValue F)
  unfolding convert_slice is_integral
  convert_one null = none
  convert_one (bool b) = some (of_bool b)
  convert_one (string s) = some (of_string s)
  convert_one (float64 f) =
      if is_integral f then some (of_int64 (fl.to_int f)) else some (of_float64 f)
  convert_one (int n) = some (of_int64 n)
  convert_one (int64 n) = some (of_int64 n)
  convert_one (float32 f) = some (of_float64 f)
  convert_one (array vs) = convert_slice vs
  convert_one (strings ss) = some (of_strings ss)
  convert_one (bools bs) = some (of_bools bs)
  convert_one (int64s ns) = some (of_int64s ns)
  convert_one (float64s fs) = some (of_float64s fs)
  convert_one other = none

  unfoldable pub keep_converted :
      Text → Option (AttributeValue F) → List (KeyValue F) → List (KeyValue F)
  keep_converted k none rest = rest
  keep_converted k (some v) rest = record { key = k; value = v } ∷ rest

  unfoldable pub convert_attributes : Attributes F → List (KeyValue F)
  unfolding convert_one keep_converted text_eq
  convert_attributes [] = []
  convert_attributes ((k, v) ∷ m) =
      let rest = convert_attributes m in
      if text_eq k error_directive_key then rest else keep_converted k (convert_one v) rest
