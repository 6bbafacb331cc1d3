-- ===== src/Engine/Emission/Visits.antt =====
-- How many spans an emission has: one for each visit of the call tree.
use otel_ecom_load_genrator.Prelude.{
  ℕ, zero, suc, ◌+◌, ◌≡◌, ◌∙◌, refl, sym, ap, subst, Option, none, some, List, [], ◌∷◌, ◌++◌, arith,
  length, length-append,
}
use mathlib.Core.Option.{some-injective}
use otel_ecom_load_genrator.Prelude.Text.{Text}
use otel_ecom_load_genrator.Prelude.Float64.{Float64}
use otel_ecom_load_genrator.Config.{Service, Route, Topology}
use otel_ecom_load_genrator.Validate.Verdict.{Node}
use otel_ecom_load_genrator.Validate.Reachable.{pair_nodes}
use otel_ecom_load_genrator.Engine.Emission.{
  Counters, SpanDraws, SpanRecord, span_of, count_span, Emitted, emit_all, resolve_visit,
  emit_visit, emit_trace,
}
use otel_ecom_load_genrator.Engine.Emission.Totals.{bind_emitted-inv}
use otel_ecom_load_genrator.Engine.Emission.CallTree.{
  IsLive, resolve_visit-IsLive, IsLive-resolve_visit,
}

-- A request to the node causes so many visits of live nodes, its own included: each entry of the
-- declared downstream_calls is followed once.
mutual
  pub data Visits {F : Type 0} (t : Topology F) (emitters : List Text) : Node → ℕ → Type 0 where
    absent :
        (n : Node)
        → ((s : Service F) (r : Route F) → ¬ IsLive t emitters n s r)
        → Visits t emitters n 0
    live :
        (n : Node) (s : Service F) (r : Route F)
        → IsLive t emitters n s r
        → (k : ℕ) → CallsVisits t emitters r.downstream_calls k
        → Visits t emitters n (suc k)

  pub data CallsVisits {F : Type 0} (t : Topology F) (emitters : List Text)
      : List (Text × Text) → ℕ → Type 0 where
    no_calls : CallsVisits t emitters [] 0
    next_call :
        (service route : Text) (rest : List (Text × Text)) (j k : ℕ)
        → Visits t emitters (record { service = service; route = route }) j
        → CallsVisits t emitters rest k
        → CallsVisits t emitters ((service, route) ∷ rest) (j + k)

module _ {F : Type 0} (t : Topology F) (emitters : List Text)
    (go : List ℕ → Node → Counters → Emitted F)
    (each : (p : List ℕ) (n : Node) (c : Counters) (spans : List (SpanRecord F)) (c' : Counters)
      → go p n c ≡ some (spans, c')
      → Visits t emitters n (length spans)) where
  emit_all-CallsVisits :
      (p : List ℕ) (k : ℕ) (pairs : List (Text × Text)) (c : Counters) (spans : List (SpanRecord F))
      (c' : Counters)
      → emit_all go p k (pair_nodes pairs) c ≡ some (spans, c')
      → CallsVisits t emitters pairs (length spans)
  unfolding emit_all pair_nodes
  emit_all-CallsVisits p k [] c spans c' h =
      let nothing : [] ≡ spans = ground arith in
      subst (λ xs. CallsVisits t emitters [] (length xs)) nothing no_calls
  emit_all-CallsVisits p k ((service, route) ∷ rest) c spans c' h =
      let n : Node = record { service = service; route = route } in
      let (xs, c1, e1, h1) = bind_emitted-inv (go (p ++ k ∷ []) n c) _ _ h in
      let (ys, c2, e2, h2) = bind_emitted-inv (emit_all go p (suc k) (pair_nodes rest) c1) _ _ h1 in
      let all : xs ++ ys ≡ spans = ap (λ out. out.0) (some-injective _ _ h2) in
      let sizes : length xs + length ys ≡ length spans =
        sym (length-append xs ys) ∙ ap length all in
      subst (CallsVisits t emitters ((service, route) ∷ rest)) sizes (
        next_call service route rest (length xs) (length ys) (each (p ++ k ∷ []) n c xs c1 e1)
          (emit_all-CallsVisits p (suc k) rest c1 ys c2 e2))

  emit_visit-Visits :
      ⦃fl : Float64 F⦄ (d : SpanDraws F) (p : List ℕ) (n : Node)
      (found : Option (Service F × Route F)) (c : Counters) (spans : List (SpanRecord F))
      (c' : Counters)
      → resolve_visit t emitters n ≡ found
      → emit_visit go d p n found c ≡ some (spans, c')
      → Visits t emitters n (length spans)
  unfolding emit_visit
  emit_visit-Visits d p n none c spans c' e h =
      let nothing : [] ≡ spans = ground arith in
      subst (λ xs. Visits t emitters n (length xs)) nothing
        (absent n (λ s r l. let e' = IsLive-resolve_visit t emitters n s r l in cc))
  emit_visit-Visits d p n (some (s, r)) c spans c' e h =
      let first = span_of d p n s r in
      let (children, c1, e1, h1) =
        bind_emitted-inv
          (emit_all go p 0 (pair_nodes r.downstream_calls) (count_span p first.failed c)) _ _ h in
      let all : first ∷ children ≡ spans = ap (λ out. out.0) (some-injective _ _ h1) in
      subst (λ xs. Visits t emitters n (length xs)) all
        (live n s r (resolve_visit-IsLive t emitters n s r e) (length children)
          (emit_all-CallsVisits p 0 r.downstream_calls _ children c1 e1))

pub emit_trace-Visits :
    {F : Type 0} ⦃fl : Float64 F⦄ (t : Topology F) (emitters : List Text)
    (plan : List ℕ → SpanDraws F) (fuel : ℕ) (p : List ℕ) (n : Node) (c : Counters)
    (spans : List (SpanRecord F)) (c' : Counters)
    → emit_trace t emitters plan fuel p n c ≡ some (spans, c')
    → Visits t emitters n (length spans)
unfolding emit_trace
emit_trace-Visits t emitters plan zero p n c spans c' h = cc
emit_trace-Visits t emitters plan (suc fuel) p n c spans c' h =
    emit_visit-Visits t emitters (emit_trace t emitters plan fuel)
      (emit_trace-Visits t emitters plan fuel) (plan p) p n (resolve_visit t emitters n) c spans c'
      refl h
