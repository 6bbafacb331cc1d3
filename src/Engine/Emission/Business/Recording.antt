-- ===== src/Engine/Emission/Business/Recording.antt =====
-- Each business metric is recorded by the instrument of its kind and name.
use otel_ecom_load_genrator.Prelude.{
  ℕ, suc, ◌≡◌, refl, some, List, [], ◌∷◌, ◌++◌, All, arith, Option-cases, Bool-cases, inl, inr,
  All-mem, Alike,
}
use otel_ecom_load_genrator.Prelude.Text.{Text, bytes, text_eq}
use otel_ecom_load_genrator.Prelude.Float64.{Float64}
use otel_ecom_load_genrator.Config.{BusinessMetric, lookup}
use otel_ecom_load_genrator.Config.Lookup.{lookup-mem}
use otel_ecom_load_genrator.Telemetry.Emitter.{
  Kind, Request, Instruments, find_or_make, ask, counter, histogram, Meter, Emitter, Given, given,
  refused, Call, counter_call, histogram_call, call, calls, made, new_emitter,
}
use otel_ecom_load_genrator.Telemetry.Emitter.Instruments.{
  known_to, known_to-call, known_to-calls, known_to-given,
}
use otel_ecom_load_genrator.Telemetry.Emitter.WellFormed.{
  MadeFor, WellFormed, call-WellFormed, calls-WellFormed, new_emitter-calls,
}
use otel_ecom_load_genrator.Engine.Emission.{
  Recorded, counted, sampled, sample_in_range, record_business_metrics,
}
use otel_ecom_load_genrator.Engine.Emission.Business.{
  Done, added, recorded, not_created, add_one, record_value, meter_business,
}

-- The meter answers a request for an instrument of that kind and name with the error.
abbrev pub Refuses : Meter → Kind → Text → Text → Type 0
Refuses meter kind name e =
    (before : List Request) × (r : Request) × (r.kind ≡ kind)
    × (r.name ≡ name)
    × (meter before r ≡ some e)

find_or_make-Refuses :
    (meter : Meter) (kind : Kind) (name description unit : Text) (before : List Request)
    (known : Instruments) (e : Text)
    → (find_or_make meter kind name description unit before known).0 ≡ refused e
    → Refuses meter kind name e
unfolding find_or_make ask
find_or_make-Refuses meter kind name description unit before known e h =
    let r : Request = record { kind = kind; name = name; description = description; unit = unit } in
    elim (Option-cases (lookup name known)) [
      | inr (i, found) ↦ absurd (ground arith)
      | inl new ↦ elim (Option-cases (meter before r)) [
        | inl fine ↦ absurd (ground arith)
        | inr (e', answer) ↦ (before, r, refl, refl, ground arith)
      ]
    ]

counter_call-Refuses :
    (meter : Meter) (name unit : Text) (em : Emitter) (e : Text)
    → (call meter (counter_call name unit) em).0 ≡ refused e
    → Refuses meter counter name e
unfolding call
counter_call-Refuses meter name unit em e h =
    find_or_make-Refuses meter counter name (bytes "Business counter " ++ name) unit em.requests
      em.counters e h

histogram_call-Refuses :
    (meter : Meter) (name unit : Text) (em : Emitter) (e : Text)
    → (call meter (histogram_call name unit) em).0 ≡ refused e
    → Refuses meter histogram name e
unfolding call
histogram_call-Refuses meter name unit em e h =
    find_or_make-Refuses meter histogram name (bytes "Business histogram " ++ name) unit em.requests
      em.histograms e h

module _ {F : Type 0} where
  -- The metric is recorded as the emission has it, or the meter refused its instrument.
  abbrev pub IsFor : Meter → Done F → Recorded F → Type 0
  IsFor meter (added name i) (counted name') = name ≡ name'
  IsFor meter (recorded name i x) (sampled name' x') = (name ≡ name') × (x ≡ x')
  IsFor meter (not_created name e) (counted name') = (name ≡ name') × Refuses meter counter name e
  IsFor meter (not_created name e) (sampled name' x') =
      (name ≡ name') × Refuses meter histogram name e
  IsFor _ _ _ = ⊥

  -- The instrument is one that the meter was asked for by that name and kind.
  abbrev pub UsesOwn : Emitter → Done F → Type 0
  UsesOwn em (added name i) = MadeFor counter em.requests (name, i)
  UsesOwn em (recorded name i x) = MadeFor histogram em.requests (name, i)
  UsesOwn em (not_created name e) = Unit

  abbrev Cached : Emitter → Done F → Type 0
  Cached em (added name i) = lookup name em.counters ≡ some i
  Cached em (recorded name i x) = lookup name em.histograms ≡ some i
  Cached em (not_created name e) = Unit

  Cached-UsesOwn :
      (em : Emitter) (ds : List (Done F)) → WellFormed em → All (Cached em) ds → All (UsesOwn em) ds
  Cached-UsesOwn em [] w h = tt
  Cached-UsesOwn em (added name i ∷ ds) w h = (
    All-mem (MadeFor counter em.requests) (name, i) em.counters w.counters.made_for
        (lookup-mem name em.counters h.0),
    Cached-UsesOwn em ds w h.1,
  )
  Cached-UsesOwn em (recorded name i x ∷ ds) w h = (
    All-mem (MadeFor histogram em.requests) (name, i) em.histograms w.histograms.made_for
        (lookup-mem name em.histograms h.0),
    Cached-UsesOwn em ds w h.1,
  )
  Cached-UsesOwn em (not_created name e ∷ ds) w h = (tt, Cached-UsesOwn em ds w h.1)

module _ {F : Type 0} ⦃fl : Float64 F⦄ (meter : Meter) (others : ℕ → List Call) (u : ℕ → F) where
  -- What holds of an Emitter and of any later one.
  module _ (P : Emitter → Type 0) (step : (c : Call) (em : Emitter) → P em → P (call meter c em).1)
      (steps : (cs : List Call) (em : Emitter) → P em → P (calls meter cs em)) where
    meter_business-keeps :
        (k : ℕ) (bms : List (BusinessMetric F)) (em : Emitter)
        → P em
        → P (meter_business meter others u k bms em).1
    unfolding meter_business
    meter_business-keeps k [] em h = h
    meter_business-keeps k (bm ∷ bms) em h =
        let before = calls meter (others k) em in
        let here = steps (others k) em h in
        elim (Bool-cases (text_eq bm.kind (bytes "counter"))) [
          | inl e ↦
              rw (meter_business, e)
                (meter_business-keeps (suc k) bms _
                  (step (counter_call bm.name bm.unit) before here))
          | inr e ↦ elim (Bool-cases (text_eq bm.kind (bytes "histogram"))) [
            | inl e' ↦
                rw (meter_business, e, e')
                  (meter_business-keeps (suc k) bms _
                    (step (histogram_call bm.name bm.unit) before here))
            | inr e' ↦ rw (meter_business, e, e') (meter_business-keeps (suc k) bms before here)
          ]
        ]

  keeps-known :
      (c : Call) (i k : ℕ) (bms : List (BusinessMetric F)) (em : Emitter)
      → known_to c em ≡ some i
      → known_to c (meter_business meter others u k bms em).1 ≡ some i
  keeps-known c i =
      meter_business-keeps (λ em. known_to c em ≡ some i) (λ c' em. known_to-call meter c c' em i)
        (λ cs em. known_to-calls meter cs c em i)

  add_one-Cached :
      (final : Emitter) (name : Text) (g : Given)
      → ((i : ℕ) → g ≡ given i → lookup name final.counters ≡ some i)
      → Cached {F = F} final (add_one name g)
  add_one-Cached final name (given i) h = h i refl
  add_one-Cached final name (refused e) h = tt

  record_value-Cached :
      (final : Emitter) (name : Text) (x : F) (g : Given)
      → ((i : ℕ) → g ≡ given i → lookup name final.histograms ≡ some i)
      → Cached final (record_value name x g)
  record_value-Cached final name x (given i) h = h i refl
  record_value-Cached final name x (refused e) h = tt

  meter_business-Cached :
      (k : ℕ) (bms : List (BusinessMetric F)) (em : Emitter)
      → All
          (Cached (meter_business meter others u k bms em).1)
          (meter_business meter others u k bms em).0
  unfolding meter_business
  meter_business-Cached k [] em = tt
  meter_business-Cached k (bm ∷ bms) em =
      let before = calls meter (others k) em in
      let c = counter_call bm.name bm.unit in
      let h = histogram_call bm.name bm.unit in
      elim (Bool-cases (text_eq bm.kind (bytes "counter"))) [
        | inl e ↦
            rw (meter_business, e)
              (
                add_one-Cached (meter_business meter others u (suc k) bms (call meter c before).1).1
                    bm.name (call meter c before).0
                    (λ i g.
                      keeps-known c i (suc k) bms (call meter c before).1
                        (known_to-given meter c before i g)),
                meter_business-Cached (suc k) bms (call meter c before).1,
              )
        | inr e ↦ elim (Bool-cases (text_eq bm.kind (bytes "histogram"))) [
          | inl e' ↦
              rw (meter_business, e, e')
                (
                  record_value-Cached
                      (meter_business meter others u (suc k) bms (call meter h before).1).1 bm.name
                      (sample_in_range bm.min bm.max (u k)) (call meter h before).0
                      (λ i g.
                        keeps-known h i (suc k) bms (call meter h before).1
                          (known_to-given meter h before i g)),
                  meter_business-Cached (suc k) bms (call meter h before).1,
                )
          | inr e' ↦ rw (meter_business, e, e') (meter_business-Cached (suc k) bms before)
        ]
      ]

  add_one-IsFor :
      (name : Text) (g : Given)
      → ((e : Text) → g ≡ refused e → Refuses meter counter name e)
      → IsFor {F = F} meter (add_one name g) (counted name)
  add_one-IsFor name (given i) why = refl
  add_one-IsFor name (refused e) why = (refl, why e refl)

  record_value-IsFor :
      (name : Text) (x : F) (g : Given)
      → ((e : Text) → g ≡ refused e → Refuses meter histogram name e)
      → IsFor meter (record_value name x g) (sampled name x)
  record_value-IsFor name x (given i) why = (refl, refl)
  record_value-IsFor name x (refused e) why = (refl, why e refl)

  meter_business-IsFor :
      (k : ℕ) (bms : List (BusinessMetric F)) (em : Emitter)
      → Alike
          (IsFor meter)
          (meter_business meter others u k bms em).0
          (record_business_metrics u k bms)
  unfolding meter_business record_business_metrics
  meter_business-IsFor k [] em = tt
  meter_business-IsFor k (bm ∷ bms) em =
      let before = calls meter (others k) em in
      let c = call meter (counter_call bm.name bm.unit) before in
      let h = call meter (histogram_call bm.name bm.unit) before in
      elim (Bool-cases (text_eq bm.kind (bytes "counter"))) [
        | inl e ↦
            rw (meter_business, record_business_metrics, e)
              (
                add_one-IsFor bm.name c.0 (counter_call-Refuses meter bm.name bm.unit before),
                meter_business-IsFor (suc k) bms c.1,
              )
        | inr e ↦ elim (Bool-cases (text_eq bm.kind (bytes "histogram"))) [
          | inl e' ↦
              rw (meter_business, record_business_metrics, e, e')
                (
                  record_value-IsFor bm.name (sample_in_range bm.min bm.max (u k)) h.0
                      (histogram_call-Refuses meter bm.name bm.unit before),
                  meter_business-IsFor (suc k) bms h.1,
                )
          | inr e' ↦
              rw (meter_business, record_business_metrics, e, e')
                (meter_business-IsFor (suc k) bms before)
        ]
      ]

-- With an Emitter that newEmitter has made, after any calls on it and whatever calls other goroutines
-- make in between: recordBusinessMetrics records each declared metric as the emission has it, or warns
-- with the error that the meter answers a request for the metric's instrument with; each instrument that it records with is one that the
-- meter was asked for with that metric's name and kind; and the Emitter stays well-formed: its RED
-- instruments are those that the meter made for it, and no name has two entries in a map.
pub meter_business-Recorded :
    {F : Type 0} ⦃fl : Float64 F⦄ (meter : Meter) (others : ℕ → List Call) (u : ℕ → F)
    (em : Emitter) (cs : List Call) (bms : List (BusinessMetric F))
    → new_emitter meter ≡ made em
    → Alike
        (IsFor meter)
        (meter_business meter others u 0 bms (calls meter cs em)).0
        (record_business_metrics u 0 bms)
      × All
          (UsesOwn (meter_business meter others u 0 bms (calls meter cs em)).1)
          (meter_business meter others u 0 bms (calls meter cs em)).0
      × WellFormed (meter_business meter others u 0 bms (calls meter cs em)).1
meter_business-Recorded meter others u em cs bms h =
    let now = calls meter cs em in
    let sound =
      meter_business-keeps meter others u WellFormed (call-WellFormed meter)
        (calls-WellFormed meter) 0 bms now (new_emitter-calls meter em cs h) in
    (
      meter_business-IsFor meter others u 0 bms now,
      Cached-UsesOwn (meter_business meter others u 0 bms now).1
          (meter_business meter others u 0 bms now).0 sound
          (meter_business-Cached meter others u 0 bms now),
      sound,
    )
