-- ===== src/Telemetry/Attributes/Slices.antt =====
-- What a JSON array becomes.
use otel_ecom_load_genrator.Prelude.{
  ◌↔◌, ◌⊎◌, All, sym, ◌≡◌, ◌≢◌, refl, subst, ap, ◌∙◌, inl, inr, Bool, true, false, Bool-cases,
  Option-cases, none, some, List, [], ◌∷◌, map, arith,
}
use otel_ecom_load_genrator.Prelude.Text.{Text, bytes}
use otel_ecom_load_genrator.Prelude.Int.{pos, negsuc}
use otel_ecom_load_genrator.Prelude.Float64.{Float64}
use otel_ecom_load_genrator.Config.{Value, Values, nil, cons, null, bool, string, float64}
use otel_ecom_load_genrator.Telemetry.Attributes.{
  AttributeValue, of_bools, of_strings, of_int64s, of_float64s, is_integral, format_int, stringify,
  stringify_slice, all_bools, all_strings, all_numbers, all_integral, convert_number_slice,
  convert_slice,
}

abbrev pub listed : {F : Type 0} → List (Value F) → Values F
listed [] = nil
listed (v ∷ vs) = cons v (listed vs)

module _ (F : Type 0) where
  all_bools-listed : (bs : List Bool) → all_bools {F = F} (listed (map bool bs)) ≡ some bs
  unfolding all_bools
  all_bools-listed [] = refl
  all_bools-listed (b ∷ bs) = rw (all_bools-listed bs) refl

  all_numbers-listed : (fs : List F) → all_numbers (listed (map float64 fs)) ≡ some fs
  unfolding all_numbers
  all_numbers-listed [] = refl
  all_numbers-listed (f ∷ fs) = rw (all_numbers-listed fs) refl

  all_bools-some :
      (vs : Values F) (bs : List Bool) → all_bools vs ≡ some bs → vs ≡ listed (map bool bs)
  unfolding all_bools
  all_bools-some nil bs h =
      let same : [] ≡ bs = ground arith in ap (λ (xs : List Bool). listed (map bool xs)) same
  all_bools-some (cons (bool b) vs) bs h = elim (Option-cases (all_bools vs)) [
    | inl e ↦ absurd (ground arith)
    | inr (rest, e) ↦
        let same : b ∷ rest ≡ bs = ground arith in
        ap (λ (xs : Values F). cons (bool b) xs) (all_bools-some vs rest e)
        ∙ ap (λ (xs : List Bool). listed (map bool xs)) same
  ]
  all_bools-some (cons v vs) bs h = cc

  all_numbers-some :
      (vs : Values F) (fs : List F) → all_numbers vs ≡ some fs → vs ≡ listed (map float64 fs)
  unfolding all_numbers
  all_numbers-some nil fs h =
      let same : [] ≡ fs = ground arith in ap (λ (xs : List F). listed (map float64 xs)) same
  all_numbers-some (cons (float64 f) vs) fs h = elim (Option-cases (all_numbers vs)) [
    | inl e ↦ absurd (ground arith)
    | inr (rest, e) ↦
        let same : f ∷ rest ≡ fs = ground arith in
        ap (λ (xs : Values F). cons (float64 f) xs) (all_numbers-some vs rest e)
        ∙ ap (λ (xs : List F). listed (map float64 xs)) same
  ]
  all_numbers-some (cons v vs) fs h = cc

module _ {F : Type 0} ⦃fl : Float64 F⦄ where
  all_strings-some :
      (vs : Values F) (ss : List Text) → all_strings vs ≡ some ss → ss ≡ stringify_slice vs
  unfolding all_strings stringify_slice stringify
  all_strings-some nil ss h = ground arith
  all_strings-some (cons (string s) vs) ss h = elim (Option-cases (all_strings vs)) [
    | inl e ↦ absurd (ground arith)
    | inr (rest, e) ↦ let more = all_strings-some vs rest e in ground arith
  ]
  all_strings-some (cons v vs) ss h = cc

  -- A finite number without a fraction, between the bounds of an int64 as a float64 has them.
  pub record IsIntegral (f : F) : Type 0 where
    pub number : fl.is_nan f ≡ false
    pub finite : fl.is_inf f ≡ false
    pub whole : fl.eq f (fl.trunc f) ≡ true
    pub above : fl.le (fl.of_int (negsuc 9223372036854775807)) f ≡ true
    pub below : fl.le f (fl.of_int (pos 9223372036854775807)) ≡ true

  is_integral_iff : (f : F) → (is_integral f ≡ true) ↔ IsIntegral f
  unfolding is_integral
  is_integral_iff f = (
    λ h. record {
      number = ground arith;
      finite = ground arith;
      whole = ground arith;
      above = ground arith;
      below = ground arith;
    },
    λ ok.
        let a = ok.number in
        let b = ok.finite in
        let c = ok.whole in let d = ok.above in let e = ok.below in ground arith,
  )

  all_integral_iff : (fs : List F) → (all_integral fs ≡ true) ↔ All IsIntegral fs
  unfolding all_integral
  all_integral_iff [] = (λ _. tt, λ _. refl)
  all_integral_iff (f ∷ fs) = ground (arith, is_integral_iff f, all_integral_iff fs)

  -- The text that stands for an element of a mixed array.
  abbrev pub Shows : Value F → Text → Type 0
  Shows null t = t ≡ []
  Shows (bool true) t = t ≡ bytes "true"
  Shows (bool false) t = t ≡ bytes "false"
  Shows (string s) t = t ≡ s
  Shows (float64 f) t =
      (IsIntegral f × (t ≡ format_int (fl.to_int f))) ⊎ ((¬ IsIntegral f) × (t ≡ fl.format f))
  Shows _ t = t ≡ bytes "unsupported"

  abbrev pub ShowsAll : Values F → List Text → Type 0
  ShowsAll nil [] = Unit
  ShowsAll (cons v vs) (t ∷ ts) = Shows v t × ShowsAll vs ts
  ShowsAll _ _ = ⊥

  stringify-Shows : (v : Value F) → Shows v (stringify v)
  unfolding stringify
  stringify-Shows (bool true) = refl
  stringify-Shows (bool false) = refl
  stringify-Shows (float64 f) = elim (Bool-cases (is_integral f)) [
    | inl e ↦ inl ((is_integral_iff f).0 e, rw (stringify, e) refl)
    | inr e ↦ inr (λ ok. let e' = (is_integral_iff f).1 ok in ground arith, rw (stringify, e) refl)
  ]
  stringify-Shows v = refl

  stringify_slice-ShowsAll : (vs : Values F) → ShowsAll vs (stringify_slice vs)
  unfolding stringify_slice
  stringify_slice-ShowsAll nil = tt
  stringify_slice-ShowsAll (cons v vs) = (stringify-Shows v, stringify_slice-ShowsAll vs)

  -- The typed slices that an array can become, and when.
  abbrev pub IsSliceOf : Values F → AttributeValue F → Type 0
  IsSliceOf vs (of_bools bs) = vs ≡ listed (map bool bs)
  IsSliceOf vs (of_int64s ns) =
      (fs : List F) × (vs ≡ listed (map float64 fs)) × All IsIntegral fs × (ns ≡ map fl.to_int fs)
  IsSliceOf vs (of_float64s fs) = (vs ≡ listed (map float64 fs)) × (¬ All IsIntegral fs)
  IsSliceOf vs (of_strings ss) =
      ShowsAll vs ss
      × ((bs : List Bool) → vs ≢ listed (map bool bs))
      × ((fs : List F) → vs ≢ listed (map float64 fs))
  IsSliceOf vs _ = ⊥

  not_bools : (vs : Values F) → all_bools vs ≡ none → (bs : List Bool) → vs ≢ listed (map bool bs)
  not_bools vs h bs e =
      let back = all_bools-listed F bs in
      let here : all_bools (listed (map bool bs)) ≡ none = subst (λ xs. all_bools xs ≡ none) e h in
      ground arith

  not_numbers :
      (vs : Values F) → all_numbers vs ≡ none → (fs : List F) → vs ≢ listed (map float64 fs)
  not_numbers vs h fs e =
      let back = all_numbers-listed F fs in
      let here : all_numbers (listed (map float64 fs)) ≡ none =
        subst (λ xs. all_numbers xs ≡ none) e h in
      ground arith

  convert_number_slice-IsSliceOf :
      (f : F) (vs : Values F)
      → IsSliceOf (cons (float64 f) vs) (convert_number_slice (cons (float64 f) vs))
  unfolding convert_number_slice all_bools
  convert_number_slice-IsSliceOf f vs = elim (Option-cases (all_numbers (cons (float64 f) vs))) [
    | inl e ↦
        rw (convert_number_slice, e)
          (
            stringify_slice-ShowsAll (cons (float64 f) vs),
            not_bools (cons (float64 f) vs) refl,
            not_numbers (cons (float64 f) vs) e,
          )
    | inr (fs, e) ↦
        let whole = all_numbers-some F (cons (float64 f) vs) fs e in
        elim (Bool-cases (all_integral fs)) [
          | inl integral ↦
              rw (convert_number_slice, e, integral)
                (fs, whole, (all_integral_iff fs).0 integral, refl)
          | inr fraction ↦
              rw (convert_number_slice, e, fraction)
                (whole, λ ok. let e' = (all_integral_iff fs).1 ok in ground arith)
        ]
  ]

  -- A JSON array that is not empty becomes one slice of the array's length, with the elements in their
  -- order: its Booleans if all are Booleans; its numbers if all are numbers, as integers exactly where
  -- each is finite, has no fraction and passes the two int64 bounds of the source; and otherwise its
  -- elements as strings, "" for null, "true" or "false" for a Boolean, an integral number as an integer.
  pub convert_slice-IsSliceOf :
      (v : Value F) (vs : Values F)
      → (out : AttributeValue F) × (convert_slice (cons v vs) ≡ some out)
        × IsSliceOf (cons v vs) out
  unfolding convert_slice all_bools all_numbers
  convert_slice-IsSliceOf (bool b) vs = elim (Option-cases (all_bools (cons (bool b) vs))) [
    | inl e ↦ (
      of_strings (stringify_slice (cons (bool b) vs)),
      rw (convert_slice, e) refl,
      (
        stringify_slice-ShowsAll (cons (bool b) vs),
        not_bools (cons (bool b) vs) e,
        not_numbers (cons (bool b) vs) refl,
      ),
    )
    | inr (bs, e) ↦
        (of_bools bs, rw (convert_slice, e) refl, all_bools-some F (cons (bool b) vs) bs e)
  ]
  convert_slice-IsSliceOf (string s) vs = elim (Option-cases (all_strings (cons (string s) vs))) [
    | inl e ↦ (
      of_strings (stringify_slice (cons (string s) vs)),
      rw (convert_slice, e) refl,
      (
        stringify_slice-ShowsAll (cons (string s) vs),
        not_bools (cons (string s) vs) refl,
        not_numbers (cons (string s) vs) refl,
      ),
    )
    | inr (ss, e) ↦ (
      of_strings ss,
      rw (convert_slice, e) refl,
      (
        subst (ShowsAll (cons (string s) vs)) (sym (all_strings-some (cons (string s) vs) ss e))
            (stringify_slice-ShowsAll (cons (string s) vs)),
        not_bools (cons (string s) vs) refl,
        not_numbers (cons (string s) vs) refl,
      ),
    )
  ]
  convert_slice-IsSliceOf (float64 f) vs =
      (convert_number_slice (cons (float64 f) vs), refl, convert_number_slice-IsSliceOf f vs)
  convert_slice-IsSliceOf v vs = (
    of_strings (stringify_slice (cons v vs)),
    refl,
    (
      stringify_slice-ShowsAll (cons v vs),
      not_bools (cons v vs) refl,
      not_numbers (cons v vs) refl,
    ),
  )
