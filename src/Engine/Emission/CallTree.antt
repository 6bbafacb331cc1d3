-- ===== src/Engine/Emission/CallTree.antt =====
-- The call tree below a node, as a relation.
use otel_ecom_load_genrator.Prelude.{
  ℕ, zero, suc, ◌+◌, ◌≡◌, ◌⊎◌, inl, inr, refl, ◌≢◌, sym, subst, ◌∙◌, none, some, List, [], ◌∷◌,
  ◌++◌, arith, Mem, get_elem?,
}
use mathlib.Core.Option.{some-injective}
use otel_ecom_load_genrator.Prelude.Text.{Text, contains_iff}
use otel_ecom_load_genrator.Prelude.Float64.{Float64}
use otel_ecom_load_genrator.Config.{Service, Route, Topology, find_service, find_route}
use otel_ecom_load_genrator.Validate.Verdict.{Node}
use otel_ecom_load_genrator.Validate.Reachable.{pair_nodes}
use otel_ecom_load_genrator.Engine.Emission.{SpanDraws, SpanRecord, span_of, resolve_visit}
use otel_ecom_load_genrator.Engine.Emission.Returns.{resolve_visit-some}

-- The node is declared and its service has an emitter.
pub record IsLive {F : Type 0} (t : Topology F) (emitters : List Text) (n : Node) (s : Service F)
    (r : Route F) : Type 0 where
  pub found_service : find_service t n.service ≡ some s
  pub found_route : find_route s n.route ≡ some r
  pub emitter : Mem n.service emitters

module _ {F : Type 0} (t : Topology F) (emitters : List Text) (n : Node) (s : Service F)
    (r : Route F) where
  pub resolve_visit-IsLive : resolve_visit t emitters n ≡ some (s, r) → IsLive t emitters n s r
  unfolding resolve_visit
  resolve_visit-IsLive h =
      let (hs, hr) = resolve_visit-some t emitters n s r h in
      record {
        found_service = hs;
        found_route = hr;
        emitter = ground (arith, contains_iff n.service emitters);
      }

  pub IsLive-resolve_visit : IsLive t emitters n s r → resolve_visit t emitters n ≡ some (s, r)
  unfolding resolve_visit
  IsLive-resolve_visit l =
      let e = l.found_service in
      let e' = l.found_route in
      let listed = (contains_iff n.service emitters).1 l.emitter in ground arith

module _ {F : Type 0} ⦃fl : Float64 F⦄ (t : Topology F) (emitters : List Text)
    (plan : List ℕ → SpanDraws F) where
  -- The span belongs to the call tree below `n`, which stands at position `p`: it is that of `n`
  -- itself, or one of the tree below the i-th call of its route, at p followed by i.
  pub data InTree : List ℕ → Node → SpanRecord F → Type 0 where
    own :
        (p : List ℕ) (n : Node) (s : Service F) (r : Route F)
        → IsLive t emitters n s r
        → (span : SpanRecord F) → span ≡ span_of (plan p) p n s r
        → InTree p n span
    below :
        (p : List ℕ) (n : Node) (s : Service F) (r : Route F)
        → IsLive t emitters n s r
        → (i : ℕ) (m : Node) → get_elem? (pair_nodes r.downstream_calls) i ≡ some m
        → (span : SpanRecord F) → InTree (p ++ i ∷ []) m span
        → InTree p n span

module _ {F : Type 0} (T : List ℕ → Node → SpanRecord F → Type 0) where
  -- The span comes from one of the nodes, the k-th and those after it.
  abbrev pub FromCall : List ℕ → ℕ → List Node → SpanRecord F → Type 0
  FromCall p k ns span =
      (i : ℕ) × (m : Node) × (get_elem? ns i ≡ some m) × T (p ++ (k + i) ∷ []) m span

  pub FromCall-head :
      (p : List ℕ) (k : ℕ) (n : Node) (ns : List Node) (span : SpanRecord F)
      → T (p ++ k ∷ []) n span
      → FromCall p k (n ∷ ns) span
  FromCall-head p k n ns span h =
      let here : k ≡ k + 0 = omega arith in (0, n, refl, subst (λ j. T (p ++ j ∷ []) n span) here h)

  pub FromCall-tail :
      (p : List ℕ) (k : ℕ) (n : Node) (ns : List Node) (span : SpanRecord F)
      → FromCall p (suc k) ns span
      → FromCall p k (n ∷ ns) span
  FromCall-tail p k n ns span (i, m, e, h) =
      let later : suc k + i ≡ k + suc i = omega arith in
      (suc i, m, e, subst (λ j. T (p ++ j ∷ []) m span) later h)

  pub FromCall-cases :
      (p : List ℕ) (k : ℕ) (n : Node) (ns : List Node) (span : SpanRecord F)
      → FromCall p k (n ∷ ns) span
      → T (p ++ k ∷ []) n span ⊎ FromCall p (suc k) ns span
  FromCall-cases p k n ns span (zero, m, e, h) =
      let here : k + 0 ≡ k = omega arith in
      inl (
        subst (λ x. T (p ++ k ∷ []) x span) (sym (some-injective _ _ e))
          (subst (λ j. T (p ++ j ∷ []) m span) here h))
  FromCall-cases p k n ns span (suc i, m, e, h) =
      let later : k + suc i ≡ suc k + i = omega arith in
      inr (i, m, e, subst (λ j. T (p ++ j ∷ []) m span) later h)

module _ {F : Type 0} ⦃fl : Float64 F⦄ (t : Topology F) (emitters : List Text)
    (plan : List ℕ → SpanDraws F) where
  abbrev pub Below : List ℕ → Route F → SpanRecord F → Type 0
  Below p r span = FromCall (InTree t emitters plan) p 0 (pair_nodes r.downstream_calls) span

  -- A node that is declared and live is so with one service and route.
  IsLive-unique :
      (n : Node) (s s' : Service F) (r r' : Route F)
      → IsLive t emitters n s' r'
      → resolve_visit t emitters n ≡ some (s, r)
      → ◌≡◌ {A = Service F × Route F} (s', r') (s, r)
  IsLive-unique n s s' r r' l e =
      some-injective _ _ (sym (IsLive-resolve_visit t emitters n s' r' l) ∙ e)

  pub InTree-cases :
      (p : List ℕ) (n : Node) (s : Service F) (r : Route F) (span : SpanRecord F)
      → resolve_visit t emitters n ≡ some (s, r)
      → InTree t emitters plan p n span
      → (span ≡ span_of (plan p) p n s r) ⊎ Below p r span
  InTree-cases p n s r span e (own _ _ s' r' l _ same) = inl (
      subst (λ (x : Service F × Route F). span ≡ span_of (plan p) p n x.0 x.1)
        (IsLive-unique n s s' r r' l e) same)
  InTree-cases p n s r span e (below _ _ s' r' l i m g _ sub) =
      let here : i ≡ 0 + i = omega arith in
      inr (
        subst (λ (x : Service F × Route F). Below p x.1 span) (IsLive-unique n s s' r r' l e)
          (i, m, g, subst (λ j. InTree t emitters plan (p ++ j ∷ []) m span) here sub))

  pub Below-InTree :
      (p : List ℕ) (n : Node) (s : Service F) (r : Route F) (span : SpanRecord F)
      → IsLive t emitters n s r
      → Below p r span
      → InTree t emitters plan p n span
  Below-InTree p n s r span l (i, m, g, sub) =
      let here : 0 + i ≡ i = omega arith in
      below p n s r l i m g span (subst (λ j. InTree t emitters plan (p ++ j ∷ []) m span) here sub)

  pub InTree-IsLive :
      (p : List ℕ) (n : Node) (span : SpanRecord F)
      → InTree t emitters plan p n span
      → resolve_visit t emitters n ≢ none
  InTree-IsLive p n span (own _ _ s r l _ _) e =
      let e' = IsLive-resolve_visit t emitters n s r l in cc
  InTree-IsLive p n span (below _ _ s r l _ _ _ _ _) e =
      let e' = IsLive-resolve_visit t emitters n s r l in cc
