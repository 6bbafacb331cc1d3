-- ===== src/Command/Traffic.antt =====
-- What is generated ends: the run of a validated document, composed with the emission.
use otel_ecom_load_genrator.Prelude.{
  ◌∙◌, ℕ, suc, ◌≡◌, sym, ap, subst, Option, none, some, List, [], Mem, mem-append_cases, inl, inr,
  All-mem, length, arith,
}
use mathlib.Core.Option.{some-injective}
use otel_ecom_load_genrator.Prelude.Int.{ℤ}
use otel_ecom_load_genrator.Prelude.Float64.{Float64}
use otel_ecom_load_genrator.Config.{File}
use otel_ecom_load_genrator.Validate.{validate_with_warnings}
use otel_ecom_load_genrator.Validate.Verdict.{Node, Accepts}
use otel_ecom_load_genrator.Validate.Cycles.{root_nodes, known}
use otel_ecom_load_genrator.Engine.Timing.{TimingMode}
use otel_ecom_load_genrator.Engine.Emission.{Counters, SpanDraws, SpanRecord, emit_trace}
use otel_ecom_load_genrator.Engine.Emission.Returns.{IsDecoded, emit_trace_returns}
use otel_ecom_load_genrator.Telemetry.Endpoint.{Options}
use otel_ecom_load_genrator.Telemetry.Providers.{Providers, ready}
use otel_ecom_load_genrator.Telemetry.Assembly.{set_up}
use otel_ecom_load_genrator.Command.{Flags, World, Step, generated, run}
use otel_ecom_load_genrator.Command.Outcomes.{
  IsPlain, Quiet, Ending, failed, validated, ran, run-Ending,
}

abbrev document_of : {F : Type 0} → Step F → Option (File F)
document_of (generated file _ _ _) = some file
document_of _ = none

abbrev providers_of : {F : Type 0} → Step F → Option Providers
providers_of (generated _ p _ _) = some p
providers_of _ = none

module _ {F : Type 0} ⦃fl : Float64 F⦄ (w : World F) (f : Flags) (file : File F) (p : Providers)
    (timing : TimingMode) (every : ℤ) where
  Quiet-no_load :
      (steps : List (Step F)) → Quiet steps → Mem (generated file p timing every) steps → ⊥
  Quiet-no_load steps quiet m = All-mem IsPlain (generated file p timing every) steps quiet m

  -- The document for which a run generates load was accepted, and Setup returned the providers.
  pub generated-Accepts :
      Mem (generated file p timing every) (run w f).steps
      → Accepts (validate_with_warnings (some file))
        × ((o : Options) × ((set_up w.parts w.env w.sdk file.topology o).0 ≡ ready p))
  generated-Accepts m = by_ending (run-Ending w f)
    where
      same_run :
          (file' : File F) (p' : Providers) (timing' : TimingMode) (o : Options)
          → generated file p timing every ≡ generated file' p' timing' f.report_every
          → Accepts (validate_with_warnings (some file'))
          → (set_up w.parts w.env w.sdk file'.topology o).0 ≡ ready p'
          → Accepts (validate_with_warnings (some file))
            × ((o : Options) × ((set_up w.parts w.env w.sdk file.topology o).0 ≡ ready p))
      same_run file' p' timing' o same accepted set =
          let to_file = sym (some-injective _ _ (ap document_of same)) in
          let to_p = sym (some-injective _ _ (ap providers_of same)) in
          (
            subst (λ x. Accepts (validate_with_warnings (some x))) to_file accepted,
            (
              o,
              subst (λ (x : File F). (set_up w.parts w.env w.sdk x.topology o).0 ≡ ready p) to_file
                  (set ∙ ap ready to_p),
            ),
          )

      by_ending :
          Ending w f (run w f)
          → Accepts (validate_with_warnings (some file))
            × ((o : Options) × ((set_up w.parts w.env w.sdk file.topology o).0 ≡ ready p))
      by_ending (failed e fault quiet) = absurd (Quiet-no_load _ quiet m)
      by_ending (validated fault only quiet) = absurd (Quiet-no_load _ quiet m)
      by_ending
            (ran file' p' backend protocol timing' before rest fault only accepted set steps quiet
              quiet') =
          elim (mem-append_cases _ before _ (subst (Mem (generated file p timing every)) steps m)) [
            | inl early ↦ absurd (Quiet-no_load before quiet early)
            | inr (inl same) ↦ same_run file' p' timing' _ same accepted set
            | inr (inr (inl wrong)) ↦ cc
            | inr (inr (inr (inl wrong))) ↦ cc
            | inr (inr (inr (inr late))) ↦ absurd (Quiet-no_load rest quiet' late)
          ]

-- Whenever a run generates load for a document, EmitTrace returns from every root route of it,
-- whatever is drawn, if no downstreamCalls has a key twice.
pub run-emit_trace :
    {F : Type 0} ⦃fl : Float64 F⦄ (w : World F) (f : Flags) (file : File F) (p : Providers)
    (timing : TimingMode) (every : ℤ) (plan : List ℕ → SpanDraws F) (n : Node) (c : Counters)
    → Mem (generated file p timing every) (run w f).steps
    → IsDecoded file.topology
    → Mem n (root_nodes file.root_routes)
    → (out : List (SpanRecord F) × Counters) × (emit_trace file.topology p.emitters plan
          (suc (length (known file.topology)))
          []
          n
          c
        ≡ some out)
run-emit_trace w f file p timing every plan n c m decoded root =
    emit_trace_returns file p.emitters plan n (suc (length (known file.topology))) [] c
      (generated-Accepts w f file p timing every m).0 decoded root (omega arith)
