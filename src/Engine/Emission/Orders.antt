-- ===== src/Engine/Emission/Orders.antt =====
-- The order in which the goroutines of an emission run does not change the counters.
use otel_ecom_load_genrator.Prelude.{
  ℕ, suc, ◌≡◌, ◌≢◌, All, refl, sym, ap, ◌∙◌, Bool, true, false, Option, none, some, List, [], ◌∷◌,
  ◌++◌, arith, zero, subst,
}
use mathlib.Core.Option.{some-injective}
use otel_ecom_load_genrator.Prelude.Text.{Text}
use otel_ecom_load_genrator.Prelude.Float64.{Float64}
use otel_ecom_load_genrator.Config.{Service, Route, Topology}
use otel_ecom_load_genrator.Validate.Verdict.{Node}
use otel_ecom_load_genrator.Validate.Reachable.{pair_nodes}
use otel_ecom_load_genrator.Engine.Emission.{
  Counters, SpanDraws, SpanRecord, span_of, count_span, Emitted, emit_all, resolve_visit,
  emit_visit, emit_trace,
}
use otel_ecom_load_genrator.Engine.Emission.Totals.{bind_emitted-inv}
use otel_ecom_load_genrator.Engine.Emission.Interleaved.{
  Which, a_trace, a_span, an_error, a_log, a_panic, inc, run_incs, entry_incs, own_incs, Shuffle,
  ended, left, right, Runs, skipped, visited, cut_short, cut_late, Forked, joined, forked,
}

inc_comm : (a b : Which) (c : Counters) → inc a (inc b c) ≡ inc b (inc a c)
unfolding inc
inc_comm a_trace a_trace c = refl
inc_comm a_trace a_span c = refl
inc_comm a_trace an_error c = refl
inc_comm a_trace a_log c = refl
inc_comm a_trace a_panic c = refl
inc_comm a_span a_trace c = refl
inc_comm a_span a_span c = refl
inc_comm a_span an_error c = refl
inc_comm a_span a_log c = refl
inc_comm a_span a_panic c = refl
inc_comm an_error a_trace c = refl
inc_comm an_error a_span c = refl
inc_comm an_error an_error c = refl
inc_comm an_error a_log c = refl
inc_comm an_error a_panic c = refl
inc_comm a_log a_trace c = refl
inc_comm a_log a_span c = refl
inc_comm a_log an_error c = refl
inc_comm a_log a_log c = refl
inc_comm a_log a_panic c = refl
inc_comm a_panic a_trace c = refl
inc_comm a_panic a_span c = refl
inc_comm a_panic an_error c = refl
inc_comm a_panic a_log c = refl
inc_comm a_panic a_panic c = refl

run_incs-inc :
    (ws : List Which) (w : Which) (c : Counters) → run_incs ws (inc w c) ≡ inc w (run_incs ws c)
unfolding run_incs
run_incs-inc [] w c = refl
run_incs-inc (v ∷ ws) w c = ap (run_incs ws) (inc_comm v w c) ∙ run_incs-inc ws w (inc v c)

pub run_incs-append :
    (xs ys : List Which) (c : Counters) → run_incs (xs ++ ys) c ≡ run_incs ys (run_incs xs c)
unfolding run_incs
run_incs-append [] ys c = refl
run_incs-append (x ∷ xs) ys c = run_incs-append xs ys (inc x c)

-- A schedule of two goroutines ends where running one after the other does.
pub run_incs-Shuffle :
    (xs ys zs : List Which)
    → Shuffle xs ys zs
    → (c : Counters) → run_incs zs c ≡ run_incs ys (run_incs xs c)
unfolding run_incs
run_incs-Shuffle _ _ _ ended c = refl
run_incs-Shuffle _ _ _ (left w xs ys zs h) c = run_incs-Shuffle xs ys zs h (inc w c)
run_incs-Shuffle _ _ _ (right w xs ys zs h) c =
    run_incs-Shuffle xs ys zs h (inc w c) ∙ ap (run_incs ys) (run_incs-inc xs w c)

run_incs-own_incs :
    (p : List ℕ) (failed : Bool) (c : Counters)
    → run_incs (own_incs p failed) c ≡ count_span p failed c
unfolding run_incs own_incs count_span inc
run_incs-own_incs [] true c = ground arith
run_incs-own_incs [] false c = ground arith
run_incs-own_incs (_ ∷ _) true c = ground arith
run_incs-own_incs (_ ∷ _) false c = ground arith

-- No increment is that of a recovered panic.
abbrev pub Smooth : List Which → Type 0
Smooth = All (λ w. w ≢ a_panic)

Smooth-append : (xs ys : List Which) → Smooth (xs ++ ys) → Smooth xs × Smooth ys
Smooth-append [] ys h = (tt, h)
Smooth-append (x ∷ xs) ys h = let (front, back) = Smooth-append xs ys h.1 in ((h.0, front), back)

Smooth-Shuffle : (xs ys zs : List Which) → Shuffle xs ys zs → Smooth zs → Smooth xs × Smooth ys
Smooth-Shuffle _ _ _ ended h = (tt, tt)
Smooth-Shuffle _ _ _ (left w xs ys zs order) h =
    let (first, second) = Smooth-Shuffle xs ys zs order h.1 in ((h.0, first), second)
Smooth-Shuffle _ _ _ (right w xs ys zs order) h =
    let (first, second) = Smooth-Shuffle xs ys zs order h.1 in (first, (h.0, second))

-- What ends in a recovered panic is not smooth.
Smooth-cut : (ws : List Which) → Smooth (ws ++ a_panic ∷ []) → ⊥
Smooth-cut ws h = (Smooth-append ws (a_panic ∷ []) h).1.0 refl

module _ {F : Type 0} ⦃fl : Float64 F⦄ (t : Topology F) (emitters : List Text)
    (plan : List ℕ → SpanDraws F) where
  -- Every order of the increments ends in the counters that `go` returns.
  abbrev Agrees : (List ℕ → Node → Counters → Emitted F) → Type 0
  Agrees go =
      (p : List ℕ) (n : Node) (c : Counters) (spans : List (SpanRecord F)) (c' : Counters)
      → go p n c ≡ some (spans, c')
      → (ws : List Which) → Runs t emitters plan p n ws
      → Smooth ws
      → run_incs ws c ≡ c'

  emit_all-Agrees :
      (go : List ℕ → Node → Counters → Emitted F)
      → Agrees go
      → (p : List ℕ) (i : ℕ) (ns : List Node) (c : Counters) (spans : List (SpanRecord F))
        (c' : Counters)
      → emit_all go p i ns c ≡ some (spans, c')
      → (ws : List Which) → Forked t emitters plan p i ns ws
      → Smooth ws
      → run_incs ws c ≡ c'
  unfolding emit_all run_incs
  emit_all-Agrees go each p i [] c spans c' h _ (joined _ _) smooth =
      ap (λ out. out.1) (some-injective _ _ h)
  emit_all-Agrees go each p i (n ∷ ns) c spans c' h ws (forked _ _ _ _ xs ys _ head rest order)
        smooth =
      let (first, second) = Smooth-Shuffle xs ys ws order smooth in
      let (spans1, c1, e1, h1) = bind_emitted-inv (go (p ++ i ∷ []) n c) _ _ h in
      let (spans2, c2, e2, h2) = bind_emitted-inv (emit_all go p (suc i) ns c1) _ _ h1 in
      run_incs-Shuffle xs ys ws order c
      ∙ (ap (run_incs ys) (each (p ++ i ∷ []) n c spans1 c1 e1 xs head first)
          ∙ (emit_all-Agrees go each p (suc i) ns c1 spans2 c2 e2 ys rest second
              ∙ ap (λ out. out.1) (some-injective _ _ h2)))

  emit_visit-Agrees :
      (go : List ℕ → Node → Counters → Emitted F)
      → Agrees go
      → (p : List ℕ) (n : Node) (found : Option (Service F × Route F))
      → resolve_visit t emitters n ≡ found
      → (c : Counters) (spans : List (SpanRecord F)) (c' : Counters)
      → emit_visit go (plan p) p n found c ≡ some (spans, c')
      → (ws : List Which) → Runs t emitters plan p n ws
      → Smooth ws
      → run_incs ws c ≡ c'
  unfolding emit_visit run_incs
  emit_visit-Agrees go each p n none e c spans c' h _ (skipped _ _ _) smooth =
      ap (λ out. out.1) (some-injective _ _ h)
  emit_visit-Agrees go each p n none e c spans c' h _ (visited _ _ s r e' _ _) smooth = cc
  emit_visit-Agrees go each p n none e c spans c' h _ (cut_short _ _ s r e') smooth = cc
  emit_visit-Agrees go each p n none e c spans c' h _ (cut_late _ _ s r e' _ _) smooth = cc
  emit_visit-Agrees go each p n (some _) e c spans c' h _ (cut_short _ _ _ _ _) smooth =
      absurd (Smooth-cut (entry_incs p) smooth)
  emit_visit-Agrees go each p n (some _) e c spans c' h _ (cut_late _ _ s r _ ws _) smooth =
      absurd
        (Smooth-cut ws (Smooth-append (own_incs p (span_of (plan p) p n s r).failed) _ smooth).1)
  emit_visit-Agrees go each p n (some (s, r)) e c spans c' h _ (skipped _ _ e') smooth = cc
  emit_visit-Agrees go each p n (some (s, r)) e c spans c' h _ (visited _ _ s' r' e' ws below)
        smooth =
      let same = some-injective _ _ (sym e' ∙ e) in
      let failed = (span_of (plan p) p n s r).failed in
      let (children, c1, e1, h1) =
        bind_emitted-inv (emit_all go p 0 (pair_nodes r.downstream_calls) (count_span p failed c)) _
          _ h in
      ap
        (λ (x : Service F × Route F).
          run_incs (own_incs p (span_of (plan p) p n x.0 x.1).failed ++ ws) c)
        same
      ∙ (run_incs-append (own_incs p failed) ws c
          ∙ (ap (run_incs ws) (run_incs-own_incs p failed c)
              ∙ (emit_all-Agrees go each p 0 (pair_nodes r.downstream_calls) (count_span p failed c)
                    children c1 e1 ws
                    (subst
                      (λ (x : Service F × Route F).
                        Forked t emitters plan p 0 (pair_nodes x.1.downstream_calls) ws)
                      same below)
                    (Smooth-append (own_incs p (span_of (plan p) p n s' r').failed) ws smooth).1
                  ∙ ap (λ out. out.1) (some-injective _ _ h1))))

  -- Whatever the order in which the goroutines of an emission take their steps, the counters end as
  -- in the emission that runs the calls one after the other, where that one returns and nothing
  -- panics.
  pub emit_trace-Agrees :
      (fuel : ℕ) (p : List ℕ) (n : Node) (c : Counters) (spans : List (SpanRecord F))
      (c' : Counters)
      → emit_trace t emitters plan fuel p n c ≡ some (spans, c')
      → (ws : List Which) → Runs t emitters plan p n ws
      → Smooth ws
      → run_incs ws c ≡ c'
  unfolding emit_trace
  emit_trace-Agrees zero p n c spans c' h ws runs smooth = cc
  emit_trace-Agrees (suc fuel) p n c spans c' h ws runs smooth =
      emit_visit-Agrees (emit_trace t emitters plan fuel) (emit_trace-Agrees fuel) p n
        (resolve_visit t emitters n) refl c spans c' h ws runs smooth
