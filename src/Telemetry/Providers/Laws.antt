-- ===== src/Telemetry/Providers/Laws.antt =====
-- Shutdown reaches every provider whatever fails.
use otel_ecom_load_genrator.Prelude.{
  ℕ, ◌≡◌, refl, sym, ap, ◌∙◌, Bool, true, false, none, some, List, [], ◌∷◌, ◌++◌, map, append_assoc,
  append-nil, Option-cases, inl, inr,
}
use otel_ecom_load_genrator.Prelude.Text.{Text}
use otel_ecom_load_genrator.Telemetry.Providers.{
  Signal, traces, metrics, logs, Op, flushing, shutting_down, Call, on, close, Providers, Sdk,
  Progress, perform, perform_each, for_each_provider, close_conn, shutdown,
}

-- The calls in their order: every flush, then every shutdown, and the connection last.
abbrev pub on_each : Op → Providers → List Call
on_each op p =
    map (on op traces) p.trace_providers
    ++ (map (on op metrics) p.metric_providers ++ map (on op logs) p.log_providers)

abbrev pub closing : Bool → List Call
closing true = close ∷ []
closing false = []

abbrev pub schedule : Providers → List Call
schedule p = on_each flushing p ++ (on_each shutting_down p ++ closing p.conn)

-- The errors of these calls, made one after the other after `before`.
abbrev pub failures_of : Sdk → List Call → List Call → List (Call × Text)
failures_of sdk before [] = []
failures_of sdk before (c ∷ cs) =
    elim (sdk before c) [ none ↦ [] | some e ↦ (c, e) ∷ [] ]
    ++ failures_of sdk (before ++ c ∷ []) cs

module _ (sdk : Sdk) where
  abbrev run : Progress → List Call → Progress
  run d [] = d
  run d (c ∷ cs) = run (perform sdk d c) cs

  run-append : (xs ys : List Call) (d : Progress) → run (run d xs) ys ≡ run d (xs ++ ys)
  run-append [] ys d = refl
  run-append (x ∷ xs) ys d = run-append xs ys (perform sdk d x)

  perform_each-run :
      (op : Op) (signal : Signal) (is : List ℕ) (d : Progress)
      → perform_each sdk op signal is d ≡ run d (map (on op signal) is)
  unfolding perform_each
  perform_each-run op signal [] d = refl
  perform_each-run op signal (i ∷ is) d =
      perform_each-run op signal is (perform sdk d (on op signal i))

  for_each_provider-run :
      (op : Op) (p : Providers) (d : Progress) → for_each_provider sdk op p d ≡ run d (on_each op p)
  unfolding for_each_provider
  for_each_provider-run op p d =
      rw
        (
          perform_each-run op traces p.trace_providers d,
          perform_each-run op metrics p.metric_providers
              (run d (map (on op traces) p.trace_providers)),
          perform_each-run op logs p.log_providers (
              run (run d (map (on op traces) p.trace_providers))
                (map (on op metrics) p.metric_providers)),
          run-append (map (on op metrics) p.metric_providers) (map (on op logs) p.log_providers)
              (run d (map (on op traces) p.trace_providers)),
        )
        (run-append (map (on op traces) p.trace_providers) _ d)

  close_conn-run : (conn : Bool) (d : Progress) → close_conn sdk conn d ≡ run d (closing conn)
  unfolding close_conn
  close_conn-run true d = refl
  close_conn-run false d = refl

  run_lem :
      (cs : List Call) (d : Progress)
      → run d cs ≡ record { calls = d.calls ++ cs; errors = d.errors ++ failures_of sdk d.calls cs }
  unfolding perform
  run_lem [] d =
      λ i. record { calls = sym (append-nil d.calls) i; errors = sym (append-nil d.errors) i }
  run_lem (c ∷ cs) d = run_lem cs (perform sdk d c) ∙ (λ i. record {
    calls = (calls_so_far ∙ append_assoc d.calls (c ∷ []) cs) i;
    errors = errors_so_far i;
  })
    where
      calls_so_far : (perform sdk d c).calls ++ cs ≡ (d.calls ++ c ∷ []) ++ cs
      calls_so_far = refl

      errors_so_far :
          (perform sdk d c).errors ++ failures_of sdk (perform sdk d c).calls cs
          ≡ d.errors ++ failures_of sdk d.calls (c ∷ cs)
      errors_so_far = elim (Option-cases (sdk d.calls c)) [
        | inl e ↦ rw e refl
        | inr (x, e) ↦
            rw e (append_assoc d.errors ((c, x) ∷ []) (failures_of sdk (d.calls ++ c ∷ []) cs))
      ]

abbrev start : Progress
start = record { calls = []; errors = [] }

-- Shutdown flushes every provider, then shuts every provider down, and closes the connection, where
-- there is one, last of all, whichever of these calls fail; it collects exactly their errors, in the
-- order of the calls.
pub shutdown_lem :
    (sdk : Sdk) (p : Providers)
    → shutdown sdk p ≡ record { calls = schedule p; errors = failures_of sdk [] (schedule p) }
unfolding shutdown
shutdown_lem sdk p =
    ap (λ d. close_conn sdk p.conn (for_each_provider sdk shutting_down p d))
      (for_each_provider-run sdk flushing p start)
    ∙ (ap (close_conn sdk p.conn) (
          for_each_provider-run sdk shutting_down p flushed
          ∙ run-append sdk (on_each flushing p) (on_each shutting_down p) start)
        ∙ (close_conn-run sdk p.conn _
            ∙ (run-append sdk (on_each flushing p ++ on_each shutting_down p) (closing p.conn) start
                ∙ (ap (run sdk start)
                      (append_assoc (on_each flushing p) (on_each shutting_down p) (closing p.conn))
                    ∙ run_lem sdk (schedule p) start))))
  where
    flushed : Progress
    flushed = run sdk start (on_each flushing p)
