-- ===== src/Telemetry/Emitter/Instruments.antt =====
-- Each business instrument is made once, and stays the same.
use otel_ecom_load_genrator.Prelude.{
  ℕ, ◌≡◌, inl, inr, refl, sym, ap, ◌∙◌, Option, some, List, [], ◌∷◌, ◌++◌, arith, Option-cases,
}
use otel_ecom_load_genrator.Prelude.Text.{Text, bytes, text_eq_refl, text_eq_iff}
use otel_ecom_load_genrator.Config.{lookup}
use otel_ecom_load_genrator.Telemetry.Emitter.{
  Kind, counter, histogram, Request, Meter, Instruments, Emitter, given, ask, find_or_make, Call,
  counter_call, histogram_call, call, calls,
}

-- The map that a call looks in, and the name that it looks for.
abbrev pub known_to : Call → Emitter → Option ℕ
known_to (counter_call name _) em = lookup name em.counters
known_to (histogram_call name _) em = lookup name em.histograms

-- Both look for the same name in the same map.
abbrev pub SameName : Call → Call → Type 0
SameName (counter_call a _) (counter_call b _) = a ≡ b
SameName (histogram_call a _) (histogram_call b _) = a ≡ b
SameName _ _ = ⊥

module _ (meter : Meter) (kind : Kind) (name description unit : Text) (before : List Request)
    (made : Instruments) where
  abbrev request : Request
  request = record { kind = kind; name = name; description = description; unit = unit }

  -- A name that has an instrument keeps it.
  find_or_make-keeps :
      (other : Text) (i : ℕ)
      → lookup other made ≡ some i
      → lookup other (find_or_make meter kind name description unit before made).1.1 ≡ some i
  unfolding find_or_make ask lookup
  find_or_make-keeps other i h = elim (Option-cases (lookup name made)) [
    | inr (j, e) ↦ ground arith
    | inl e ↦ elim (Option-cases (meter before request)) [
      | inr (x, e') ↦ ground arith
      | inl e' ↦ ground (arith, text_eq_iff name other)
    ]
  ]

  find_or_make-given :
      (i : ℕ)
      → (find_or_make meter kind name description unit before made).0 ≡ given i
      → lookup name (find_or_make meter kind name description unit before made).1.1 ≡ some i
  unfolding find_or_make ask lookup
  find_or_make-given i h = elim (Option-cases (lookup name made)) [
    | inr (j, e) ↦ ground arith
    | inl e ↦ elim (Option-cases (meter before request)) [
      | inr (x, e') ↦ ground arith
      | inl e' ↦ ground (arith, text_eq_refl name)
    ]
  ]

  find_or_make-again :
      (i : ℕ)
      → lookup name made ≡ some i
      → find_or_make meter kind name description unit before made ≡ (given i, (before, made))
  unfolding find_or_make
  find_or_make-again i h = ground arith

module _ (meter : Meter) where
  pub known_to-call :
      (c c' : Call) (em : Emitter) (i : ℕ)
      → known_to c em ≡ some i
      → known_to c (call meter c' em).1 ≡ some i
  unfolding call
  known_to-call (counter_call a _) (counter_call b unit) em i h =
      find_or_make-keeps meter counter b (bytes "Business counter " ++ b) unit em.requests
        em.counters a i h
  known_to-call (counter_call a _) (histogram_call b unit) em i h = h
  known_to-call (histogram_call a _) (counter_call b unit) em i h = h
  known_to-call (histogram_call a _) (histogram_call b unit) em i h =
      find_or_make-keeps meter histogram b (bytes "Business histogram " ++ b) unit em.requests
        em.histograms a i h

  pub known_to-calls :
      (cs : List Call) (c : Call) (em : Emitter) (i : ℕ)
      → known_to c em ≡ some i
      → known_to c (calls meter cs em) ≡ some i
  unfolding calls
  known_to-calls [] c em i h = h
  known_to-calls (c' ∷ cs) c em i h =
      known_to-calls cs c (call meter c' em).1 i (known_to-call c c' em i h)

  pub known_to-given :
      (c : Call) (em : Emitter) (i : ℕ)
      → (call meter c em).0 ≡ given i
      → known_to c (call meter c em).1 ≡ some i
  unfolding call
  known_to-given (counter_call a unit) em i h =
      find_or_make-given meter counter a (bytes "Business counter " ++ a) unit em.requests
        em.counters i h
  known_to-given (histogram_call a unit) em i h =
      find_or_make-given meter histogram a (bytes "Business histogram " ++ a) unit em.requests
        em.histograms i h

  call-known :
      (c : Call) (em : Emitter) (i : ℕ) → known_to c em ≡ some i → call meter c em ≡ (given i, em)
  unfolding call
  call-known (counter_call a unit) em i h =
      rw
        (find_or_make-again meter counter a (bytes "Business counter " ++ a) unit em.requests
          em.counters i h)
        refl
  call-known (histogram_call a unit) em i h =
      rw
        (find_or_make-again meter histogram a (bytes "Business histogram " ++ a) unit em.requests
          em.histograms i h)
        refl

  known_to-SameName : (c c' : Call) (em : Emitter) → SameName c c' → known_to c' em ≡ known_to c em
  known_to-SameName (counter_call a _) (counter_call b _) em e =
      ap (λ x. lookup x em.counters) (sym e)
  known_to-SameName (histogram_call a _) (histogram_call b _) em e =
      ap (λ x. lookup x em.histograms) (sym e)
  known_to-SameName (counter_call a _) (histogram_call b _) em e = absurd e
  known_to-SameName (histogram_call a _) (counter_call b _) em e = absurd e

-- Once Counter or Histogram has returned an instrument for a name, every later call of the same
-- method with that name returns the same one and asks the meter for nothing, whatever other calls
-- come between and whatever unit is passed.
pub call-again :
    (meter : Meter) (em : Emitter) (c c' : Call) (i : ℕ) (between : List Call)
    → (call meter c em).0 ≡ given i
    → SameName c c'
    → call meter c' (calls meter between (call meter c em).1)
      ≡ (given i, calls meter between (call meter c em).1)
call-again meter em c c' i between h same =
    let later = calls meter between (call meter c em).1 in
    call-known meter c' later i (
      known_to-SameName meter c c' later same
      ∙ known_to-calls meter between c (call meter c em).1 i (known_to-given meter c em i h))
