-- ===== src/Engine/Emission/Once.antt =====
-- Each visit of the call tree is emitted once.
use otel_ecom_load_genrator.Prelude.{
  ℕ, zero, suc, ◌≤◌, ◌≡◌, ◌≢◌, inl, inr, refl, sym, ap, subst, ◌∙◌, Option, none, some, List, [],
  ◌∷◌, ◌++◌, arith, Mem, mem-append_cases, append_assoc, append-nil, length,
}
use mathlib.Core.Option.{some-injective}
use otel_ecom_load_genrator.Prelude.Text.{Text}
use otel_ecom_load_genrator.Prelude.Float64.{Float64}
use otel_ecom_load_genrator.Config.{Service, Route, Topology}
use otel_ecom_load_genrator.Validate.Verdict.{Node}
use otel_ecom_load_genrator.Validate.Reachable.{pair_nodes}
use otel_ecom_load_genrator.Engine.Emission.{
  Counters, SpanDraws, SpanRecord, span_of, count_span, Emitted, emit_all, resolve_visit,
  emit_visit, emit_trace,
}
use otel_ecom_load_genrator.Engine.Emission.Totals.{bind_emitted-inv}
use otel_ecom_load_genrator.Engine.Emission.Visits.{Visits, emit_trace-Visits}

abbrev tail : List ℕ → List ℕ
tail [] = []
tail (_ ∷ xs) = xs

abbrev head_or_zero : List ℕ → ℕ
head_or_zero [] = 0
head_or_zero (x ∷ _) = x

append_cancel : (p xs ys : List ℕ) → p ++ xs ≡ p ++ ys → xs ≡ ys
append_cancel [] xs ys h = h
append_cancel (x ∷ p) xs ys h = append_cancel p xs ys (ap tail h)

module _ {F : Type 0} where
  -- The positions of the spans are pairwise distinct.
  abbrev pub Once : List (SpanRecord F) → Type 0
  Once [] = Unit
  Once (s ∷ ss) = ((x : SpanRecord F) → Mem x ss → s.position ≢ x.position) × Once ss

  Once-append :
      (xs ys : List (SpanRecord F))
      → Once xs
      → Once ys
      → ((x y : SpanRecord F) → Mem x xs → Mem y ys → x.position ≢ y.position)
      → Once (xs ++ ys)
  Once-append [] ys h k apart = k
  Once-append (x ∷ xs) ys (new, h) k apart = (
    λ z m. elim (mem-append_cases z xs ys m) [
      | inl early ↦ new z early
      | inr late ↦ apart x z (inl refl) late
    ],
    Once-append xs ys h k (λ a b m. apart a b (inr m)),
  )

  abbrev Placed : List ℕ → List (SpanRecord F) → Type 0
  Placed p spans =
      ((s : SpanRecord F) → Mem s spans → (q : List ℕ) × (s.position ≡ p ++ q)) × Once spans

  -- Below the calls of index k and more.
  abbrev PlacedFrom : List ℕ → ℕ → List (SpanRecord F) → Type 0
  PlacedFrom p k spans =
      ((s : SpanRecord F)
        → Mem s spans
        → (j : ℕ) × (q : List ℕ) × (k ≤ j) × (s.position ≡ p ++ j ∷ q))
      × Once spans

  PlacedFrom-append :
      (p : List ℕ) (k : ℕ) (xs ys : List (SpanRecord F))
      → Placed (p ++ k ∷ []) xs
      → PlacedFrom p (suc k) ys
      → PlacedFrom p k (xs ++ ys)
  PlacedFrom-append p k xs ys (here, once_xs) (later, once_ys) = (
    λ s m. elim (mem-append_cases s xs ys m) [
      | inl early ↦ let (q, e) = here s early in (k, q, omega arith, e ∙ append_assoc p (k ∷ []) q)
      | inr late ↦ let (j, q, le, e) = later s late in (j, q, omega arith, e)
    ],
    Once-append xs ys once_xs once_ys apart,
  )
    where
      apart : (x y : SpanRecord F) → Mem x xs → Mem y ys → x.position ≢ y.position
      apart x y m m' same =
          let (q, e) = here x m in
          let (j, q', le, e') = later y m' in
          let tails =
            append_cancel p (k ∷ q) (j ∷ q') (sym (e ∙ append_assoc p (k ∷ []) q) ∙ (same ∙ e')) in
          let index : k ≡ j = ap head_or_zero tails in omega arith

  Placed-own :
      (p : List ℕ) (first : SpanRecord F) (children : List (SpanRecord F))
      → first.position ≡ p
      → PlacedFrom p 0 children
      → Placed p (first ∷ children)
  Placed-own p first children e (deeper, once) = (
    λ s m. elim m [
      | inl same ↦ ([], ap (λ (x : SpanRecord F). x.position) same ∙ (e ∙ sym (append-nil p)))
      | inr child ↦ let (j, q, _, e') = deeper s child in (j ∷ q, e')
    ],
    (
      λ x m same.
          let (j, q, _, e') = deeper x m in
          let ends = append_cancel p [] (j ∷ q) (append-nil p ∙ (sym e ∙ (same ∙ e'))) in cc,
      once,
    ),
  )

  emit_all-PlacedFrom :
      (go : List ℕ → Node → Counters → Emitted F)
      → ((p : List ℕ) (n : Node) (c : Counters) (spans : List (SpanRecord F)) (c' : Counters)
          → go p n c ≡ some (spans, c')
          → Placed p spans)
      → (p : List ℕ) (k : ℕ) (ns : List Node) (c : Counters) (spans : List (SpanRecord F))
        (c' : Counters)
      → emit_all go p k ns c ≡ some (spans, c')
      → PlacedFrom p k spans
  unfolding emit_all
  emit_all-PlacedFrom go each p k [] c spans c' h =
      let nothing : [] ≡ spans = ground arith in
      subst (PlacedFrom p k) nothing (λ s m. absurd m, tt)
  emit_all-PlacedFrom go each p k (n ∷ ns) c spans c' h =
      let (xs, c1, e1, h1) = bind_emitted-inv (go (p ++ k ∷ []) n c) _ _ h in
      let (ys, c2, e2, h2) = bind_emitted-inv (emit_all go p (suc k) ns c1) _ _ h1 in
      let all : xs ++ ys ≡ spans = ap (λ out. out.0) (some-injective _ _ h2) in
      subst (PlacedFrom p k) all (
        PlacedFrom-append p k xs ys (each (p ++ k ∷ []) n c xs c1 e1)
          (emit_all-PlacedFrom go each p (suc k) ns c1 ys c2 e2))

module _ {F : Type 0} ⦃fl : Float64 F⦄ where
  emit_visit-Placed :
      (go : List ℕ → Node → Counters → Emitted F)
      → ((p : List ℕ) (n : Node) (c : Counters) (spans : List (SpanRecord F)) (c' : Counters)
          → go p n c ≡ some (spans, c')
          → Placed p spans)
      → (d : SpanDraws F) (p : List ℕ) (n : Node) (found : Option (Service F × Route F))
        (c : Counters) (spans : List (SpanRecord F)) (c' : Counters)
      → emit_visit go d p n found c ≡ some (spans, c')
      → Placed p spans
  unfolding emit_visit span_of
  emit_visit-Placed go each d p n none c spans c' h =
      let nothing : [] ≡ spans = ground arith in subst (Placed p) nothing (λ s m. absurd m, tt)
  emit_visit-Placed go each d p n (some (s, r)) c spans c' h =
      let first = span_of d p n s r in
      let (children, c1, e1, h1) =
        bind_emitted-inv
          (emit_all go p 0 (pair_nodes r.downstream_calls) (count_span p first.failed c)) _ _ h in
      let all : first ∷ children ≡ spans = ap (λ out. out.0) (some-injective _ _ h1) in
      subst (Placed p) all (
        Placed-own p first children refl
          (emit_all-PlacedFrom go each p 0 (pair_nodes r.downstream_calls) _ children c1 e1))

  emit_trace-Placed :
      (t : Topology F) (emitters : List Text) (plan : List ℕ → SpanDraws F) (fuel : ℕ) (p : List ℕ)
      (n : Node) (c : Counters) (spans : List (SpanRecord F)) (c' : Counters)
      → emit_trace t emitters plan fuel p n c ≡ some (spans, c')
      → Placed p spans
  unfolding emit_trace
  emit_trace-Placed t emitters plan zero p n c spans c' h = cc
  emit_trace-Placed t emitters plan (suc fuel) p n c spans c' h =
      emit_visit-Placed (emit_trace t emitters plan fuel) (emit_trace-Placed t emitters plan fuel)
        (plan p) p n (resolve_visit t emitters n) c spans c' h

  -- An emission that returns emits every visit once: no two of its spans stand at the same position of
  -- the call tree, and there are as many of them as a request to the node causes visits of live nodes
  -- when each declared downstream call is followed once.
  pub emit_trace-Once :
      (t : Topology F) (emitters : List Text) (plan : List ℕ → SpanDraws F) (fuel : ℕ) (p : List ℕ)
      (n : Node) (c : Counters) (spans : List (SpanRecord F)) (c' : Counters)
      → emit_trace t emitters plan fuel p n c ≡ some (spans, c')
      → Once spans × Visits t emitters n (length spans)
  emit_trace-Once t emitters plan fuel p n c spans c' h = (
    (emit_trace-Placed t emitters plan fuel p n c spans c' h).1,
    emit_trace-Visits t emitters plan fuel p n c spans c' h,
  )
