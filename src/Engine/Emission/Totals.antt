-- ===== src/Engine/Emission/Totals.antt =====
-- The counters of the Engine agree with what was emitted.
use otel_ecom_load_genrator.Prelude.{
  ℕ, zero, suc, ◌+◌, ◌≡◌, refl, Option, none, some, List, [], ◌∷◌, ◌++◌, arith, if◌then◌else◌,
  length, length-append, subst,
}
use mathlib.Core.Option.{some-injective}
use otel_ecom_load_genrator.Prelude.Text.{Text}
use otel_ecom_load_genrator.Prelude.Float64.{Float64}
use otel_ecom_load_genrator.Config.{Service, Route, Topology}
use otel_ecom_load_genrator.Validate.Verdict.{Node}
use otel_ecom_load_genrator.Validate.Reachable.{pair_nodes}
use otel_ecom_load_genrator.Engine.Emission.{
  Counters, SpanDraws, SpanRecord, span_of, count_span, Emitted, bind_emitted, emit_all,
  resolve_visit, emit_visit, emit_trace,
}

module _ {F : Type 0} where
  abbrev pub failures : List (SpanRecord F) → ℕ
  failures [] = 0
  failures (s ∷ ss) = (if s.failed then 1 else 0) + failures ss

  -- The spans without a parent.
  abbrev pub roots : List (SpanRecord F) → ℕ
  roots [] = 0
  roots (s ∷ ss) = elim s.position [ [] ↦ 1 | _ ∷ _ ↦ 0 ] + roots ss

  failures-append : (xs ys : List (SpanRecord F)) → failures (xs ++ ys) ≡ failures xs + failures ys
  failures-append [] ys = omega arith
  failures-append (x ∷ xs) ys = omega (arith, failures-append xs ys)

  roots-append : (xs ys : List (SpanRecord F)) → roots (xs ++ ys) ≡ roots xs + roots ys
  roots-append [] ys = omega arith
  roots-append (x ∷ xs) ys = omega (arith, roots-append xs ys)

  -- What the emission of these spans adds to the counters.
  pub record Adds (spans : List (SpanRecord F)) (c c' : Counters) : Type 0 where
    pub spans_added : c'.spans ≡ c.spans + length spans
    pub logs_added : c'.logs ≡ c.logs + length spans
    pub errors_added : c'.error_spans ≡ c.error_spans + failures spans
    pub traces_added : c'.traces ≡ c.traces + roots spans
    pub panics_kept : c'.panics ≡ c.panics

  Adds-append :
      (xs ys : List (SpanRecord F)) (c c' c'' : Counters)
      → Adds xs c c'
      → Adds ys c' c''
      → Adds (xs ++ ys) c c''
  Adds-append xs ys c c' c'' h k =
      omega (arith, length-append xs ys, failures-append xs ys, roots-append xs ys)

  -- The increments of one span, and those of the spans below it.
  Adds-own :
      (own : SpanRecord F) (c c' : Counters) (children : List (SpanRecord F))
      → Adds children (count_span own.position own.failed c) c'
      → Adds (own ∷ children) c c'
  unfolding count_span
  Adds-own own c c' children h = ground arith

  Adds-returned :
      (c : Counters) (xs ys : List (SpanRecord F)) (c1 c2 : Counters)
      → ◌≡◌ {A = Emitted F} (some (xs, c1)) (some (ys, c2))
      → Adds xs c c1
      → Adds ys c c2
  Adds-returned c xs ys c1 c2 e =
      subst (λ (out : List (SpanRecord F) × Counters). Adds out.0 c out.1) (some-injective _ _ e)

  pub bind_emitted-inv :
      (e : Emitted F) (k : List (SpanRecord F) → Counters → Emitted F)
      (out : List (SpanRecord F) × Counters)
      → bind_emitted e k ≡ some out
      → (spans : List (SpanRecord F)) × (c : Counters) × (e ≡ some (spans, c))
        × (k spans c ≡ some out)
  bind_emitted-inv none k out h = cc
  bind_emitted-inv (some (spans, c)) k out h = (spans, c, refl, h)

  emit_all-Adds :
      (go : List ℕ → Node → Counters → Emitted F)
      → ((p : List ℕ) (n : Node) (c : Counters) (spans : List (SpanRecord F)) (c' : Counters)
          → go p n c ≡ some (spans, c')
          → Adds spans c c')
      → (position : List ℕ) (i : ℕ) (ns : List Node) (c : Counters) (spans : List (SpanRecord F))
        (c' : Counters)
      → emit_all go position i ns c ≡ some (spans, c')
      → Adds spans c c'
  unfolding emit_all
  emit_all-Adds go each position i [] c spans c' h = ground arith
  emit_all-Adds go each position i (n ∷ ns) c spans c' h =
      let (xs, c1, e1, h1) = bind_emitted-inv (go (position ++ i ∷ []) n c) _ _ h in
      let (ys, c2, e2, h2) = bind_emitted-inv (emit_all go position (suc i) ns c1) _ _ h1 in
      let first = each (position ++ i ∷ []) n c xs c1 e1 in
      let rest = emit_all-Adds go each position (suc i) ns c1 ys c2 e2 in
      Adds-returned c (xs ++ ys) spans c2 c' h2 (Adds-append xs ys c c1 c2 first rest)

module _ {F : Type 0} ⦃fl : Float64 F⦄ where
  emit_visit-Adds :
      (go : List ℕ → Node → Counters → Emitted F)
      → ((p : List ℕ) (n : Node) (c : Counters) (spans : List (SpanRecord F)) (c' : Counters)
          → go p n c ≡ some (spans, c')
          → Adds spans c c')
      → (d : SpanDraws F) (position : List ℕ) (n : Node) (found : Option (Service F × Route F))
        (c : Counters) (spans : List (SpanRecord F)) (c' : Counters)
      → emit_visit go d position n found c ≡ some (spans, c')
      → Adds spans c c'
  unfolding emit_visit
  emit_visit-Adds go each d position n none c spans c' h = ground arith
  emit_visit-Adds go each d position n (some (svc, route)) c spans c' h =
      let own = span_of d position n svc route in
      let counted = count_span position own.failed c in
      let (children, c1, e1, h1) =
        bind_emitted-inv (emit_all go position 0 (pair_nodes route.downstream_calls) counted) _ _
          h in
      let below =
        emit_all-Adds go each position 0 (pair_nodes route.downstream_calls) counted children c1
          e1 in
      Adds-returned c (own ∷ children) spans c1 c' h1
        (Adds-own own c c1 children (unfold span_of in below))

  -- Every emission that returns adds to the counters exactly what it emitted: one span and one log record for
  -- each visit, an error span for each failed one, and a trace for each span without a parent; no
  -- panic is counted.
  pub emit_trace-Adds :
      (t : Topology F) (emitters : List Text) (plan : List ℕ → SpanDraws F) (fuel : ℕ)
      (position : List ℕ) (n : Node) (c : Counters) (spans : List (SpanRecord F)) (c' : Counters)
      → emit_trace t emitters plan fuel position n c ≡ some (spans, c')
      → Adds spans c c'
  unfolding emit_trace
  emit_trace-Adds t emitters plan zero position n c spans c' h = cc
  emit_trace-Adds t emitters plan (suc fuel) position n c spans c' h =
      emit_visit-Adds (emit_trace t emitters plan fuel) (emit_trace-Adds t emitters plan fuel)
        (plan position) position n (resolve_visit t emitters n) c spans c' h
