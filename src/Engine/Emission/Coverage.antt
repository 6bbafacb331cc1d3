-- ===== src/Engine/Emission/Coverage.antt =====
-- What an emission consists of: exactly the call tree.
use otel_ecom_load_genrator.Prelude.{
  ℕ, zero, suc, ◌≡◌, ◌↔◌, inl, inr, refl, sym, ap, subst, Option, none, some, List, [], ◌∷◌, ◌++◌,
  arith, Mem, mem-append_left, mem-append_right, mem-append_cases,
}
use mathlib.Core.Option.{some-injective}
use otel_ecom_load_genrator.Prelude.Text.{Text}
use otel_ecom_load_genrator.Prelude.Float64.{Float64}
use otel_ecom_load_genrator.Config.{Service, Route, Topology}
use otel_ecom_load_genrator.Validate.Verdict.{Node}
use otel_ecom_load_genrator.Validate.Reachable.{pair_nodes}
use otel_ecom_load_genrator.Engine.Emission.{
  Counters, SpanDraws, SpanRecord, span_of, count_span, Emitted, emit_all, resolve_visit,
  emit_visit, emit_trace,
}
use otel_ecom_load_genrator.Engine.Emission.Totals.{bind_emitted-inv}
use otel_ecom_load_genrator.Engine.Emission.CallTree.{
  InTree, own, FromCall, FromCall-head, FromCall-tail, FromCall-cases, resolve_visit-IsLive,
  InTree-cases, Below-InTree, InTree-IsLive,
}

module _ {F : Type 0} (T : List ℕ → Node → SpanRecord F → Type 0)
    (go : List ℕ → Node → Counters → Emitted F)
    (each : (p : List ℕ) (n : Node) (c : Counters) (spans : List (SpanRecord F)) (c' : Counters)
      → go p n c ≡ some (spans, c')
      → (span : SpanRecord F) → Mem span spans ↔ T p n span) where
  emit_all-mem :
      (p : List ℕ) (k : ℕ) (ns : List Node) (c : Counters) (spans : List (SpanRecord F))
      (c' : Counters)
      → emit_all go p k ns c ≡ some (spans, c')
      → (span : SpanRecord F) → Mem span spans ↔ FromCall T p k ns span
  unfolding emit_all
  emit_all-mem p k [] c spans c' h span =
      let nothing : [] ≡ spans = ground arith in
      (λ m. absurd (subst (Mem span) (sym nothing) m), λ from. nowhere from)
    where
      nowhere : FromCall T p k [] span → Mem span spans
      nowhere (i, m, e, _) = cc
  emit_all-mem p k (n ∷ ns) c spans c' h span =
      let (xs, c1, e1, h1) = bind_emitted-inv (go (p ++ k ∷ []) n c) _ _ h in
      let (ys, c2, e2, h2) = bind_emitted-inv (emit_all go p (suc k) ns c1) _ _ h1 in
      let first = each (p ++ k ∷ []) n c xs c1 e1 span in
      let rest = emit_all-mem p (suc k) ns c1 ys c2 e2 span in
      let all : xs ++ ys ≡ spans = ap (λ out. out.0) (some-injective _ _ h2) in
      (
        λ m. elim (mem-append_cases span xs ys (subst (Mem span) (sym all) m)) [
          | inl early ↦ FromCall-head T p k n ns span (first.0 early)
          | inr late ↦ FromCall-tail T p k n ns span (rest.0 late)
        ],
        λ from. subst (Mem span) all (elim (FromCall-cases T p k n ns span from) [
          | inl early ↦ mem-append_left span xs ys (first.1 early)
          | inr late ↦ mem-append_right span xs ys (rest.1 late)
        ]),
      )

module _ {F : Type 0} ⦃fl : Float64 F⦄ (t : Topology F) (emitters : List Text)
    (plan : List ℕ → SpanDraws F) where
  emit_visit-mem :
      (go : List ℕ → Node → Counters → Emitted F)
      → ((p : List ℕ) (n : Node) (c : Counters) (spans : List (SpanRecord F)) (c' : Counters)
          → go p n c ≡ some (spans, c')
          → (span : SpanRecord F) → Mem span spans ↔ InTree t emitters plan p n span)
      → (p : List ℕ) (n : Node) (found : Option (Service F × Route F))
      → resolve_visit t emitters n ≡ found
      → (c : Counters) (spans : List (SpanRecord F)) (c' : Counters)
      → emit_visit go (plan p) p n found c ≡ some (spans, c')
      → (span : SpanRecord F) → Mem span spans ↔ InTree t emitters plan p n span
  unfolding emit_visit
  emit_visit-mem go each p n none e c spans c' h span =
      let nothing : [] ≡ spans = ground arith in
      (
        λ m. absurd (subst (Mem span) (sym nothing) m),
        λ tree. absurd (InTree-IsLive t emitters plan p n span tree e),
      )
  emit_visit-mem go each p n (some (s, r)) e c spans c' h span =
      let live = resolve_visit-IsLive t emitters n s r e in
      let first = span_of (plan p) p n s r in
      let (children, c1, e1, h1) =
        bind_emitted-inv
          (emit_all go p 0 (pair_nodes r.downstream_calls) (count_span p first.failed c)) _ _ h in
      let rest =
        emit_all-mem (InTree t emitters plan) go each p 0 (pair_nodes r.downstream_calls) _ children
          c1 e1 span in
      let all : first ∷ children ≡ spans = ap (λ out. out.0) (some-injective _ _ h1) in
      (
        λ m. elim (subst (Mem span) (sym all) m) [
          | inl same ↦ own p n s r live span same
          | inr deeper ↦ Below-InTree t emitters plan p n s r span live (rest.0 deeper)
        ],
        λ tree. subst (Mem span) all (elim (InTree-cases t emitters plan p n s r span e tree) [
          | inl same ↦ inl same
          | inr deeper ↦ inr (rest.1 deeper)
        ]),
      )

  -- The emission from a node, where it returns, consists of exactly the spans of the call tree below
  -- the node: of the node itself if it is declared and its service has an emitter, and of the trees
  -- below the calls of its route.
  pub emit_trace-InTree :
      (fuel : ℕ) (p : List ℕ) (n : Node) (c : Counters) (spans : List (SpanRecord F))
      (c' : Counters)
      → emit_trace t emitters plan fuel p n c ≡ some (spans, c')
      → (span : SpanRecord F) → Mem span spans ↔ InTree t emitters plan p n span
  unfolding emit_trace
  emit_trace-InTree zero p n c spans c' h span = cc
  emit_trace-InTree (suc fuel) p n c spans c' h span =
      emit_visit-mem (emit_trace t emitters plan fuel) (emit_trace-InTree fuel) p n
        (resolve_visit t emitters n) refl c spans c' h span
