-- ===== src/Telemetry/Emitter/WellFormed.antt =====
-- The state of an Emitter, whatever has been asked of it.
use otel_ecom_load_genrator.Prelude.{
  ℕ, zero, suc, ◌≡◌, ◌⊎◌, refl, sym, subst, none, some, List, [], ◌∷◌, ◌++◌, length, All, Mem, inl,
  inr, arith, Option-cases, get_elem?,
}
use otel_ecom_load_genrator.Prelude.Text.{Text, bytes, text_eq_iff}
use otel_ecom_load_genrator.Config.{lookup}
use otel_ecom_load_genrator.Config.Lookup.{Distinct, keys}
use otel_ecom_load_genrator.Telemetry.Emitter.{
  Kind, counter, histogram, Request, Meter, Instruments, Emitter, ask, find_or_make, Call,
  counter_call, histogram_call, call, calls, red_duration, red_requests, red_errors, made,
  new_emitter,
}

-- The instrument was made by a request for that kind and name.
pub record MadeFor (kind : Kind) (requests : List Request) (entry : Text × ℕ) : Type 0 where
  pub request : Request
  pub found : get_elem? requests entry.1 ≡ some request
  pub of_kind : request.kind ≡ kind
  pub named : request.name ≡ entry.0

-- No name has two instruments, and each entry has its own.
pub record IsCache (kind : Kind) (requests : List Request) (entries : Instruments) : Type 0 where
  pub distinct : Distinct (keys entries)
  pub made_for : All (MadeFor kind requests) entries

pub record WellFormed (em : Emitter) : Type 0 where
  pub duration : get_elem? em.requests em.duration ≡ some red_duration
  pub request_count : get_elem? em.requests em.request_count ≡ some red_requests
  pub error_count : get_elem? em.requests em.error_count ≡ some red_errors
  pub counters : IsCache counter em.requests em.counters
  pub histograms : IsCache histogram em.requests em.histograms

get_elem?-append :
    (rs : List Request) (r r' : Request) (i : ℕ)
    → get_elem? rs i ≡ some r
    → get_elem? (rs ++ r' ∷ []) i ≡ some r
get_elem?-append [] r r' i h = cc
get_elem?-append (x ∷ rs) r r' zero h = h
get_elem?-append (x ∷ rs) r r' (suc i) h = get_elem?-append rs r r' i h

get_elem?-last : (rs : List Request) (r : Request) → get_elem? (rs ++ r ∷ []) (length rs) ≡ some r
get_elem?-last [] r = refl
get_elem?-last (x ∷ rs) r = get_elem?-last rs r

lookup-none :
    (name : Text) (entries : Instruments) → lookup name entries ≡ none → ¬ Mem name (keys entries)
unfolding lookup
lookup-none name [] h m = m
lookup-none name ((k, i) ∷ rest) h (inl e) = ground (arith, text_eq_iff k name)
lookup-none name ((k, i) ∷ rest) h (inr m) =
    let later = lookup-none name rest in ground (arith, text_eq_iff k name)

module _ (kind : Kind) (requests : List Request) (r : Request) where
  MadeFor-append :
      (entries : Instruments)
      → All (MadeFor kind requests) entries
      → All (MadeFor kind (requests ++ r ∷ [])) entries
  MadeFor-append [] h = tt
  MadeFor-append (entry ∷ rest) h = (
    record {
      request = h.0.request;
      found = get_elem?-append requests h.0.request r entry.1 h.0.found;
      of_kind = h.0.of_kind;
      named = h.0.named;
    },
    MadeFor-append rest h.1,
  )

  IsCache-append :
      (entries : Instruments)
      → IsCache kind requests entries
      → IsCache kind (requests ++ r ∷ []) entries
  IsCache-append entries h = record {
    distinct = h.distinct;
    made_for = MadeFor-append entries h.made_for;
  }

-- The requests after a call: as before, or one more.
abbrev Grown : List Request → List Request → Type 0
Grown before later = (later ≡ before) ⊎ ((r : Request) × (later ≡ before ++ r ∷ []))

get_elem?-Grown :
    (before later : List Request) (r : Request) (i : ℕ)
    → Grown before later
    → get_elem? before i ≡ some r
    → get_elem? later i ≡ some r
get_elem?-Grown before later r i (inl same) h = rw same h
get_elem?-Grown before later r i (inr (r', more)) h = rw more (get_elem?-append before r r' i h)

IsCache-Grown :
    (kind : Kind) (before later : List Request) (entries : Instruments)
    → Grown before later
    → IsCache kind before entries
    → IsCache kind later entries
IsCache-Grown kind before later entries (inl same) h =
    subst (λ rs. IsCache kind rs entries) (sym same) h
IsCache-Grown kind before later entries (inr (r, more)) h =
    subst (λ rs. IsCache kind rs entries) (sym more) (IsCache-append kind before r entries h)

module _ (meter : Meter) (kind : Kind) (name description unit : Text) (before : List Request)
    (entries : Instruments) where
  find_or_make-Grown :
      Grown before (find_or_make meter kind name description unit before entries).1.0
  unfolding find_or_make ask
  find_or_make-Grown = elim (Option-cases (lookup name entries)) [
    | inr (i, e) ↦ rw (e, find_or_make) (inl refl)
    | inl e ↦
        elim (Option-cases (
          meter before
            (record { kind = kind; name = name; description = description; unit = unit }))) [
              | inl e' ↦ rw (e, e', find_or_make, ask) (inr (_, refl))
              | inr (x, e') ↦ rw (e, e', find_or_make, ask) (inr (_, refl))
            ]
  ]

  find_or_make-IsCache :
      IsCache kind before entries
      → IsCache kind
          (find_or_make meter kind name description unit before entries).1.0
          (find_or_make meter kind name description unit before entries).1.1
  unfolding find_or_make ask
  find_or_make-IsCache h =
      let r : Request = record {
        kind = kind;
        name = name;
        description = description;
        unit = unit;
      } in
      elim (Option-cases (lookup name entries)) [
        | inr (i, e) ↦ rw (e, find_or_make) h
        | inl e ↦ elim (Option-cases (meter before r)) [
          | inr (x, e') ↦ rw (e, e', find_or_make, ask) (IsCache-append kind before r entries h)
          | inl e' ↦
              rw (e, e', find_or_make, ask)
                (record {
                  distinct = (lookup-none name entries e, h.distinct);
                  made_for = (
                    record {
                      request = r;
                      found = get_elem?-last before r;
                      of_kind = refl;
                      named = refl;
                    },
                    MadeFor-append kind before r entries h.made_for,
                  );
                })
        ]
      ]

-- What newEmitter makes.
abbrev initial : Emitter
initial = record {
  requests = red_duration ∷ red_requests ∷ red_errors ∷ [];
  duration = 0;
  request_count = 1;
  error_count = 2;
  counters = [];
  histograms = [];
}

initial-WellFormed : WellFormed initial
initial-WellFormed = record {
  duration = refl;
  request_count = refl;
  error_count = refl;
  counters = record { distinct = tt; made_for = tt };
  histograms = record { distinct = tt; made_for = tt };
}

module _ (meter : Meter) where
  pub call-WellFormed : (c : Call) (em : Emitter) → WellFormed em → WellFormed (call meter c em).1
  unfolding call
  call-WellFormed (counter_call name unit) em h =
      let grown =
        find_or_make-Grown meter counter name (bytes "Business counter " ++ name) unit em.requests
          em.counters in
      record {
        duration = get_elem?-Grown em.requests _ red_duration em.duration grown h.duration;
        request_count =
            get_elem?-Grown em.requests _ red_requests em.request_count grown h.request_count;
        error_count = get_elem?-Grown em.requests _ red_errors em.error_count grown h.error_count;
        counters =
            find_or_make-IsCache meter counter name (bytes "Business counter " ++ name) unit
              em.requests em.counters h.counters;
        histograms = IsCache-Grown histogram em.requests _ em.histograms grown h.histograms;
      }
  call-WellFormed (histogram_call name unit) em h =
      let grown =
        find_or_make-Grown meter histogram name (bytes "Business histogram " ++ name) unit
          em.requests em.histograms in
      record {
        duration = get_elem?-Grown em.requests _ red_duration em.duration grown h.duration;
        request_count =
            get_elem?-Grown em.requests _ red_requests em.request_count grown h.request_count;
        error_count = get_elem?-Grown em.requests _ red_errors em.error_count grown h.error_count;
        counters = IsCache-Grown counter em.requests _ em.counters grown h.counters;
        histograms =
            find_or_make-IsCache meter histogram name (bytes "Business histogram " ++ name) unit
              em.requests em.histograms h.histograms;
      }

  pub calls-WellFormed :
      (cs : List Call) (em : Emitter) → WellFormed em → WellFormed (calls meter cs em)
  unfolding calls
  calls-WellFormed [] em h = h
  calls-WellFormed (c ∷ cs) em h = calls-WellFormed cs (call meter c em).1 (call-WellFormed c em h)

  new_emitter-initial : (em : Emitter) → new_emitter meter ≡ made em → em ≡ initial
  unfolding new_emitter ask
  new_emitter-initial em h = ground arith

-- Whatever is asked of a new Emitter, in any order, each of its RED instruments stays the one that
-- the meter made for it; each entry of its two maps holds an instrument that the meter was asked for
-- with that name and that kind; and no name has two entries.
pub new_emitter-calls :
    (meter : Meter) (em : Emitter) (cs : List Call)
    → new_emitter meter ≡ made em
    → WellFormed (calls meter cs em)
new_emitter-calls meter em cs h =
    calls-WellFormed meter cs em
      (subst WellFormed (sym (new_emitter-initial meter em h)) initial-WellFormed)
