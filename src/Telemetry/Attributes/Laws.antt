-- ===== src/Telemetry/Attributes/Laws.antt =====
-- Which attributes are exported, and of which type.
use otel_ecom_load_genrator.Prelude.{
  ◌≡◌, ◌≢◌, ◌↔◌, ◌⊎◌, inl, inr, refl, Bool, none, some, List, [], ◌∷◌, Mem, arith, length,
  Option-cases, ℕ, suc, length-map, ap, sym, subst, ◌∙◌,
}
use otel_ecom_load_genrator.Prelude.Text.{Text, text_eq_iff}
use otel_ecom_load_genrator.Prelude.Float64.{Float64}
use otel_ecom_load_genrator.Config.{
  Value, null, array, other, float64, bool, string, Values, nil, cons, Attributes,
  error_directive_key,
}
use otel_ecom_load_genrator.Telemetry.Attributes.{
  AttributeValue, of_int64s, of_float64s, KeyValue, convert_slice, convert_one, convert_attributes,
  keep_converted, of_bools, of_strings, all_bools, all_strings, stringify_slice,
  convert_number_slice, all_numbers,
}

-- Exported under key k with value v: k is not the directive, and v converts from an entry of the map.
abbrev pub Exports : {F : Type 0} ⦃fl : Float64 F⦄ → Attributes F → KeyValue F → Type 0
Exports {F} m kv =
    (kv.key ≢ error_directive_key)
    × ((v : Value F) × Mem (kv.key, v) m × (convert_one v ≡ some kv.value))

module _ {F : Type 0} ⦃fl : Float64 F⦄ where
  abbrev Drops : Value F → Type 0
  Drops null = Unit
  Drops (array nil) = Unit
  Drops other = Unit
  Drops _ = ⊥

  convert_slice-cons : (v : Value F) (vs : Values F) → convert_slice (cons v vs) ≢ none
  unfolding convert_slice
  convert_slice-cons null vs h = cc
  convert_slice-cons v vs h = ground arith

  convert_one-none : (v : Value F) → convert_one v ≡ none → Drops v
  unfolding convert_one
  convert_one-none null h = tt
  convert_one-none other h = tt
  convert_one-none (array nil) h = tt
  convert_one-none (array (cons v vs)) h = convert_slice-cons v vs h
  convert_one-none v h = ground arith

  Drops-none : (v : Value F) → Drops v → convert_one v ≡ none
  unfolding convert_one convert_slice
  Drops-none null h = refl
  Drops-none other h = refl
  Drops-none (array nil) h = refl
  Drops-none (array (cons v vs)) h = absurd h
  Drops-none v h = absurd h

  -- A value is dropped exactly when it is null, an empty array, or of a type without an attribute.
  pub convert_one-none_iff : (v : Value F) → (convert_one v ≡ none) ↔ Drops v
  convert_one-none_iff v = (convert_one-none v, Drops-none v)

  -- One step of the loop.
  mem-convert_attributes-cons :
      (k : Text) (v : Value F) (m : Attributes F) (kv : KeyValue F)
      → Mem kv (convert_attributes ((k, v) ∷ m)) ↔ (
          (k ≢ error_directive_key) × (kv.key ≡ k) × (convert_one v ≡ some kv.value)
          ⊎ Mem kv (convert_attributes m))
  unfolding convert_attributes keep_converted
  mem-convert_attributes-cons k v m kv = (
    ground (arith, text_eq_iff k error_directive_key),
    ground (arith, text_eq_iff k error_directive_key),
  )

  Exports-sound :
      (m : Attributes F) (kv : KeyValue F) → Mem kv (convert_attributes m) → Exports m kv
  unfolding convert_attributes
  Exports-sound [] kv h = absurd h
  Exports-sound ((k, v) ∷ m) kv h = elim ((mem-convert_attributes-cons k v m kv).0 h) [
    | inl (other_key, same, converts) ↦
        (λ e. other_key (sym same ∙ e), (v, inl (λ i. (same i, v)), converts))
    | inr later ↦
        let (other_key, (w, listed, converts)) = Exports-sound m kv later in
        (other_key, (w, inr listed, converts))
  ]

  Exports-complete :
      (m : Attributes F) (kv : KeyValue F) → Exports m kv → Mem kv (convert_attributes m)
  Exports-complete [] kv (other_key, (w, listed, converts)) = absurd listed
  Exports-complete ((k, v) ∷ m) kv (other_key, (w, inl same, converts)) =
      (mem-convert_attributes-cons k v m kv).1 (
        inl (
          λ e. other_key (ap (λ (p : Text × Value F). p.0) same ∙ e),
          ap (λ (p : Text × Value F). p.0) same,
          subst (λ x. convert_one x ≡ some kv.value) (ap (λ (p : Text × Value F). p.1) same)
              converts,
        ))
  Exports-complete ((k, v) ∷ m) kv (other_key, (w, inr listed, converts)) =
      (mem-convert_attributes-cons k v m kv).1
        (inr (Exports-complete m kv (other_key, (w, listed, converts))))

  -- ConvertAttributes exports exactly the entries that are not the error directive and convert.
  pub convert_attributes_iff :
      (m : Attributes F) (kv : KeyValue F) → Mem kv (convert_attributes m) ↔ Exports m kv
  convert_attributes_iff m kv = (Exports-sound m kv, Exports-complete m kv)

abbrev pub count : {F : Type 0} → Values F → ℕ
count nil = 0
count (cons _ vs) = suc (count vs)

-- The number of elements of a slice attribute, and 1 for a scalar.
abbrev pub elements : {F : Type 0} → AttributeValue F → ℕ
elements (of_bools bs) = length bs
elements (of_strings ss) = length ss
elements (of_int64s ns) = length ns
elements (of_float64s fs) = length fs
elements _ = 1

module _ {F : Type 0} where
  length-all_bools :
      (vs : Values F) (bs : List Bool) → all_bools vs ≡ some bs → length bs ≡ count vs
  unfolding all_bools
  length-all_bools nil bs h = ground arith
  length-all_bools (cons (bool b) vs) bs h = elim (Option-cases (all_bools vs)) [
    | inl e ↦ ground arith
    | inr (r, e) ↦ ground (arith, length-all_bools vs r)
  ]
  length-all_bools (cons v vs) bs h = ground arith

  length-all_strings :
      (vs : Values F) (ss : List Text) → all_strings vs ≡ some ss → length ss ≡ count vs
  unfolding all_strings
  length-all_strings nil ss h = ground arith
  length-all_strings (cons (string s) vs) ss h = elim (Option-cases (all_strings vs)) [
    | inl e ↦ ground arith
    | inr (r, e) ↦ ground (arith, length-all_strings vs r)
  ]
  length-all_strings (cons v vs) ss h = ground arith

  length-all_numbers :
      (vs : Values F) (fs : List F) → all_numbers vs ≡ some fs → length fs ≡ count vs
  unfolding all_numbers
  length-all_numbers nil fs h = ground arith
  length-all_numbers (cons (float64 f) vs) fs h = elim (Option-cases (all_numbers vs)) [
    | inl e ↦ ground arith
    | inr (r, e) ↦ ground (arith, length-all_numbers vs r)
  ]
  length-all_numbers (cons v vs) fs h = ground arith

module _ {F : Type 0} ⦃fl : Float64 F⦄ where
  length-stringify_slice : (vs : Values F) → length (stringify_slice vs) ≡ count vs
  unfolding stringify_slice
  length-stringify_slice nil = refl
  length-stringify_slice (cons v vs) = ap suc (length-stringify_slice vs)

  elements-convert_number_slice : (vs : Values F) → elements (convert_number_slice vs) ≡ count vs
  unfolding convert_number_slice
  elements-convert_number_slice vs = elim (Option-cases (all_numbers vs)) [
    | inl e ↦ ground (arith, length-stringify_slice vs)
    | inr (fs, e) ↦ ground (arith, length-all_numbers vs fs, length-map fl.to_int fs)
  ]

  -- No element of an array is lost, whatever its elements' types: a mixed or nested array becomes
  -- as many strings.
  pub elements-convert_slice :
      (vs : Values F) (a : AttributeValue F) → convert_slice vs ≡ some a → elements a ≡ count vs
  unfolding convert_slice
  elements-convert_slice nil a h = cc
  elements-convert_slice (cons (bool b) vs) a h =
      elim (Option-cases (all_bools (cons (bool b) vs))) [
        | inl e ↦ ground (arith, length-stringify_slice (cons (bool b) vs))
        | inr (bs, e) ↦ ground (arith, length-all_bools (cons (bool b) vs) bs)
      ]
  elements-convert_slice (cons (string s) vs) a h =
      elim (Option-cases (all_strings (cons (string s) vs))) [
        | inl e ↦ ground (arith, length-stringify_slice (cons (string s) vs))
        | inr (ss, e) ↦ ground (arith, length-all_strings (cons (string s) vs) ss)
      ]
  elements-convert_slice (cons (float64 f) vs) a h =
      ground (arith, elements-convert_number_slice (cons (float64 f) vs))
  elements-convert_slice (cons v vs) a h = ground (arith, length-stringify_slice (cons v vs))
