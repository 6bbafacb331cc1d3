-- ===== src/Engine/Emission/Panics.antt =====
-- What the counters say when emissions panic and recoverEmission recovers.
use otel_ecom_load_genrator.Prelude.{
  ℕ, ◌+◌, ◌≤◌, ◌≡◌, refl, suc, ◌∙◌, Bool, true, false, List, [], ◌∷◌, ◌++◌, arith, subst, sym,
}
use otel_ecom_load_genrator.Prelude.Text.{Text}
use otel_ecom_load_genrator.Prelude.Float64.{Float64}
use otel_ecom_load_genrator.Config.{Topology}
use otel_ecom_load_genrator.Validate.Verdict.{Node}
use otel_ecom_load_genrator.Engine.Emission.{Counters, SpanDraws, span_of}
use otel_ecom_load_genrator.Engine.Emission.Interleaved.{
  Which, a_panic, inc, run_incs, entry_incs, own_incs, Runs, skipped, visited, cut_short, cut_late,
  Forked, joined, forked,
}
use otel_ecom_load_genrator.Engine.Emission.Orders.{run_incs-append, run_incs-Shuffle}

-- From the first counters to the second, log records and recovered panics together are no fewer than
-- spans, neither alone is more, and failed spans are no more than log records.
pub record Balanced (c c' : Counters) : Type 0 where
  pub accounted : c'.spans + (c.logs + c.panics) ≤ (c'.logs + c'.panics) + c.spans
  pub logs_spans : c'.logs + c.spans ≤ c'.spans + c.logs
  pub panics_spans : c'.panics + c.spans ≤ c'.spans + c.panics
  pub errors_logs : c'.error_spans + c.logs ≤ c'.logs + c.error_spans

Balanced-trans : (a b c : Counters) → Balanced a b → Balanced b c → Balanced a c
Balanced-trans a b c h k = record {
  accounted = omega (arith, h.accounted, k.accounted);
  logs_spans = omega (arith, h.logs_spans, k.logs_spans);
  panics_spans = omega (arith, h.panics_spans, k.panics_spans);
  errors_logs = omega (arith, h.errors_logs, k.errors_logs);
}

-- What one emission counts itself: a span, and `n` log records.
abbrev Counts : ℕ → Counters → Counters → Type 0
Counts n c c' =
    (c'.spans ≡ c.spans + 1)
    × (c'.logs ≡ c.logs + n)
    × (c'.panics ≡ c.panics)
    × (c'.error_spans ≤ c.error_spans + n)

run_incs-entry_incs : (p : List ℕ) (c : Counters) → Counts 0 c (run_incs (entry_incs p) c)
unfolding run_incs entry_incs inc
run_incs-entry_incs [] c = (omega arith, omega arith, refl, omega arith)
run_incs-entry_incs (_ ∷ _) c = (omega arith, omega arith, refl, omega arith)

own_incs-Counts :
    (p : List ℕ) (failed : Bool) (c : Counters) → Counts 1 c (run_incs (own_incs p failed) c)
unfolding run_incs own_incs entry_incs inc
own_incs-Counts [] true c = (omega arith, omega arith, refl, omega arith)
own_incs-Counts [] false c = (omega arith, omega arith, refl, omega arith)
own_incs-Counts (_ ∷ _) true c = (omega arith, omega arith, refl, omega arith)
own_incs-Counts (_ ∷ _) false c = (omega arith, omega arith, refl, omega arith)

Balanced-refl : (c : Counters) → Balanced c c
Balanced-refl c = record {
  accounted = omega arith;
  logs_spans = omega arith;
  panics_spans = omega arith;
  errors_logs = omega arith;
}

-- One emission that goes through, and what its calls do.
Balanced-whole : (a b c : Counters) → Counts 1 a b → Balanced b c → Balanced a c
Balanced-whole a b c (spans, logs, panics, errors) h = record {
  accounted = omega (arith, h.accounted);
  logs_spans = omega (arith, h.logs_spans);
  panics_spans = omega (arith, h.panics_spans);
  errors_logs = omega (arith, h.errors_logs);
}

Balanced-short : (a b : Counters) → Counts 0 a b → Balanced a (run_incs (a_panic ∷ []) b)
unfolding run_incs inc
Balanced-short a b (spans, logs, panics, errors) = record {
  accounted = omega arith;
  logs_spans = omega arith;
  panics_spans = omega arith;
  errors_logs = omega arith;
}

Balanced-late :
    (a b c : Counters) → Counts 1 a b → Balanced b c → Balanced a (run_incs (a_panic ∷ []) c)
unfolding run_incs inc
Balanced-late a b c (spans, logs, panics, errors) h = record {
  accounted = omega (arith, h.accounted);
  logs_spans = omega (arith, h.logs_spans);
  panics_spans = omega (arith, h.panics_spans);
  errors_logs = omega (arith, h.errors_logs);
}

module _ {F : Type 0} ⦃fl : Float64 F⦄ (t : Topology F) (emitters : List Text)
    (plan : List ℕ → SpanDraws F) where
  mutual
    unfolding run_incs

    Runs-Balanced_from :
        (p : List ℕ) (n : Node) (ws : List Which)
        → Runs t emitters plan p n ws
        → (c : Counters) → Balanced c (run_incs ws c)
    Runs-Balanced_from _ _ _ (skipped p n e) c = Balanced-refl c
    Runs-Balanced_from _ _ _ (visited p n s r e ws below) c =
        let own = own_incs p (span_of (plan p) p n s r).failed in
        subst (Balanced c) (sym (run_incs-append own ws c)) (
          Balanced-whole c (run_incs own c) (run_incs ws (run_incs own c)) (own_incs-Counts p _ c)
            (Forked-Balanced p 0 _ ws below (run_incs own c)))
    Runs-Balanced_from _ _ _ (cut_short p n s r e) c =
        subst (Balanced c) (sym (run_incs-append (entry_incs p) (a_panic ∷ []) c))
          (Balanced-short c (run_incs (entry_incs p) c) (run_incs-entry_incs p c))
    Runs-Balanced_from _ _ _ (cut_late p n s r e ws below) c =
        let own = own_incs p (span_of (plan p) p n s r).failed in
        subst (Balanced c)
          (sym (
            run_incs-append own (ws ++ a_panic ∷ []) c
            ∙ run_incs-append ws (a_panic ∷ []) (run_incs own c)))
          (Balanced-late c (run_incs own c) (run_incs ws (run_incs own c)) (own_incs-Counts p _ c)
            (Forked-Balanced p 0 _ ws below (run_incs own c)))

    Forked-Balanced :
        (p : List ℕ) (i : ℕ) (ns : List Node) (ws : List Which)
        → Forked t emitters plan p i ns ws
        → (c : Counters) → Balanced c (run_incs ws c)
    Forked-Balanced _ _ _ _ (joined p i) c = Balanced-refl c
    Forked-Balanced _ _ _ _ (forked p i n ns xs ys zs head rest order) c =
        subst (Balanced c) (sym (run_incs-Shuffle xs ys zs order c)) (
          Balanced-trans c (run_incs xs c) (run_incs ys (run_incs xs c))
            (Runs-Balanced_from (p ++ i ∷ []) n xs head c)
            (Forked-Balanced p (suc i) ns ys rest (run_incs xs c)))

  -- Whatever the order in which the goroutines of an emission take their steps, and whichever of
  -- them panic, the log records and recovered panics that it counts are together no fewer than the
  -- spans, neither alone is more, and its failed spans are no more than its log records.
  pub Runs-Balanced :
      (p : List ℕ) (n : Node) (ws : List Which)
      → Runs t emitters plan p n ws
      → (c : Counters) → Balanced c (run_incs ws c)
  Runs-Balanced p n ws runs c = Runs-Balanced_from p n ws runs c
