-- ===== src/Engine/Emission/Interleaved.antt =====
-- internal/engine/engine.go: the goroutines of emitDownstreams over the shared counters. An
-- increment of a counter, which its mutex makes atomic, is one step; the goroutines of one fan-out
-- take their steps in any order, and the parent goes on when all have ended (wg.Wait). The SDK may
-- panic in any of them; recoverEmission counts that, and the goroutine ends.
use otel_ecom_load_genrator.Prelude.{
  ℕ, suc, ◌+◌, ◌≡◌, Bool, none, some, List, [], ◌∷◌, ◌++◌, if◌then◌else◌,
}
use otel_ecom_load_genrator.Prelude.Text.{Text}
use otel_ecom_load_genrator.Prelude.Float64.{Float64}
use otel_ecom_load_genrator.Config.{Service, Route, Topology}
use otel_ecom_load_genrator.Validate.Verdict.{Node}
use otel_ecom_load_genrator.Validate.Reachable.{pair_nodes}
use otel_ecom_load_genrator.Engine.Emission.{Counters, SpanDraws, span_of, resolve_visit}

-- The counters that EmitTrace increments.
pub data Which : Type 0 where
  a_trace a_span an_error a_log a_panic : Which

-- atomic64.inc of one of them.
unfoldable pub inc : Which → Counters → Counters
inc a_trace c = record c { traces = c.traces + 1 }
inc a_span c = record c { spans = c.spans + 1 }
inc an_error c = record c { error_spans = c.error_spans + 1 }
inc a_log c = record c { logs = c.logs + 1 }
inc a_panic c = record c { panics = c.panics + 1 }

unfoldable pub run_incs : List Which → Counters → Counters
unfolding inc
run_incs [] c = c
run_incs (w ∷ ws) c = run_incs ws (inc w c)

-- The increments at the start of EmitTrace, before it calls the SDK.
unfoldable pub entry_incs : List ℕ → List Which
entry_incs position = elim position [ [] ↦ a_trace ∷ [] | _ ∷ _ ↦ [] ] ++ a_span ∷ []

-- Those that EmitTrace makes itself when nothing panics, in their order.
unfoldable pub own_incs : List ℕ → Bool → List Which
unfolding entry_incs
own_incs position failed =
    entry_incs position ++ (if failed then an_error ∷ a_log ∷ [] else a_log ∷ [])

-- What recoverEmission counts.
abbrev pub recovered : List Which
recovered = a_panic ∷ []

-- The steps of two goroutines, in an order that keeps each one's own.
pub data Shuffle : List Which → List Which → List Which → Type 0 where
  ended : Shuffle [] [] []
  left : (w : Which) (xs ys zs : List Which) → Shuffle xs ys zs → Shuffle (w ∷ xs) ys (w ∷ zs)
  right : (w : Which) (xs ys zs : List Which) → Shuffle xs ys zs → Shuffle xs (w ∷ ys) (w ∷ zs)

module _ {F : Type 0} ⦃fl : Float64 F⦄ (t : Topology F) (emitters : List Text)
    (plan : List ℕ → SpanDraws F) where
  mutual
    -- The increments of one emission, in an order in which they can happen.
    pub data Runs : List ℕ → Node → List Which → Type 0 where
      skipped : (p : List ℕ) (n : Node) → resolve_visit t emitters n ≡ none → Runs p n []
      visited :
          (p : List ℕ) (n : Node) (s : Service F) (r : Route F)
          → resolve_visit t emitters n ≡ some (s, r)
          → (ws : List Which) → Forked p 0 (pair_nodes r.downstream_calls) ws
          → Runs p n (own_incs p (span_of (plan p) p n s r).failed ++ ws)
      -- The SDK panics before the log record is counted, so that no call is made; recoverEmission.
      cut_short :
          (p : List ℕ) (n : Node) (s : Service F) (r : Route F)
          → resolve_visit t emitters n ≡ some (s, r)
          → Runs p n (entry_incs p ++ recovered)
      -- It panics after the calls, at the end of the span or in a metric.
      cut_late :
          (p : List ℕ) (n : Node) (s : Service F) (r : Route F)
          → resolve_visit t emitters n ≡ some (s, r)
          → (ws : List Which) → Forked p 0 (pair_nodes r.downstream_calls) ws
          → Runs p n (own_incs p (span_of (plan p) p n s r).failed ++ (ws ++ recovered))

    -- Those of the goroutines for the calls of index i and more.
    pub data Forked : List ℕ → ℕ → List Node → List Which → Type 0 where
      joined : (p : List ℕ) (i : ℕ) → Forked p i [] []
      forked :
          (p : List ℕ) (i : ℕ) (n : Node) (ns : List Node) (xs ys zs : List Which)
          → Runs (p ++ i ∷ []) n xs
          → Forked p (suc i) ns ys
          → Shuffle xs ys zs
          → Forked p i (n ∷ ns) zs
