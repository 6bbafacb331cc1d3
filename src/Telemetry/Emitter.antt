-- ===== src/Telemetry/Emitter.antt =====
-- internal/telemetry/emitter.go: the instruments of one service. A meter is known by the requests
-- made of it: `meter` gives the error of a request, if any, after those made before it, and the
-- instrument that a request returns is known by its place among them. The mutex makes each call of
-- Counter and Histogram one step.
pub mod Instruments
pub mod WellFormed
use otel_ecom_load_genrator.Prelude.{
  ℕ, suc, Option, none, some, List, [], ◌∷◌, ◌++◌, length, if◌then◌else◌,
}
use otel_ecom_load_genrator.Prelude.Text.{Text, bytes, text_eq}
use otel_ecom_load_genrator.Config.{lookup}

pub data Kind : Type 0 where
  counter histogram : Kind

-- What a meter is asked for: the kind, the name, the description and the unit, "" where it has none.
pub record Request : Type 0 where
  pub kind : Kind
  pub name : Text
  pub description : Text
  pub unit : Text

abbrev pub Meter : Type 0
Meter = List Request → Request → Option Text

abbrev pub Instruments : Type 0
Instruments = List (Text × ℕ)

pub record Emitter : Type 0 where
  pub requests : List Request
  pub duration : ℕ
  pub request_count : ℕ
  pub error_count : ℕ
  pub counters : Instruments
  pub histograms : Instruments

-- The instrument, or the error.
pub data Given : Type 0 where
  given : ℕ → Given
  refused : Text → Given

unfoldable pub ask : Meter → List Request → Request → Given
ask meter before r = elim (meter before r) [ none ↦ given (length before) | some e ↦ refused e ]

-- A lazily created instrument: the maps and requests after the call, and what it returns.
unfoldable pub find_or_make :
    Meter
    → Kind
    → Text
    → Text
    → Text
    → List Request
    → Instruments
    → Given × (List Request × Instruments)
unfolding ask lookup
find_or_make meter kind name description unit before made = elim (lookup name made) [
  | some i ↦ (given i, (before, made))
  | none ↦
      let r : Request = record {
        kind = kind;
        name = name;
        description = description;
        unit = unit;
      } in
      elim (ask meter before r) [
        | given i ↦ (given i, (before ++ r ∷ [], (name, i) ∷ made))
        | refused e ↦ (refused e, (before ++ r ∷ [], made))
      ]
]

-- Emitter.Counter and Emitter.Histogram.
pub data Call : Type 0 where
  counter_call histogram_call : Text → Text → Call

unfoldable pub call : Meter → Call → Emitter → Given × Emitter
unfolding find_or_make
call meter (counter_call name unit) em =
    let (out, (requests, made)) =
      find_or_make meter counter name (bytes "Business counter " ++ name) unit em.requests
        em.counters in
    (out, record em { requests = requests; counters = made })
call meter (histogram_call name unit) em =
    let (out, (requests, made)) =
      find_or_make meter histogram name (bytes "Business histogram " ++ name) unit em.requests
        em.histograms in
    (out, record em { requests = requests; histograms = made })

-- Calls one after the other, as the mutex lets them through.
unfoldable pub calls : Meter → List Call → Emitter → Emitter
unfolding call
calls meter [] em = em
calls meter (c ∷ cs) em = calls meter cs (call meter c em).1

abbrev pub red_duration : Request
red_duration = record {
  kind = histogram;
  name = bytes "http.server.request.duration";
  description = bytes "Duration of inbound requests";
  unit = bytes "s";
}

abbrev pub red_requests : Request
red_requests = record {
  kind = counter;
  name = bytes "http.server.request.count";
  description = bytes "Count of inbound requests";
  unit = bytes "{request}";
}

abbrev pub red_errors : Request
red_errors = record {
  kind = counter;
  name = bytes "http.server.error.count";
  description = bytes "Count of failed inbound requests";
  unit = bytes "{error}";
}

pub data Made : Type 0 where
  made : Emitter → Made
  failed : Request → Text → Made

unfoldable pub new_emitter : Meter → Made
unfolding ask
new_emitter meter = elim (ask meter [] red_duration) [
  | refused e ↦ failed red_duration e
  | given i ↦ elim (ask meter (red_duration ∷ []) red_requests) [
    | refused e ↦ failed red_requests e
    | given j ↦ elim (ask meter (red_duration ∷ red_requests ∷ []) red_errors) [
      | refused e ↦ failed red_errors e
      | given k ↦ made (record {
        requests = red_duration ∷ red_requests ∷ red_errors ∷ [];
        duration = i;
        request_count = j;
        error_count = k;
        counters = [];
        histograms = [];
      })
    ]
  ]
]
