-- ===== src/Telemetry/Exporters/Agreement.antt =====
-- The three exporters of a service send to one place, and where that is by default.
use otel_ecom_load_genrator.Prelude.{
  ◌≡◌, refl, true, false, none, some, List, [], ◌∷◌, ◌++◌, ap, inl, inr, Mem,
}
use otel_ecom_load_genrator.Prelude.Text.{Text}
use otel_ecom_load_genrator.Telemetry.Endpoint.{Protocol, grpc, http, host_port}
use otel_ecom_load_genrator.Telemetry.Exporters.{
  ExporterOption, gzip, temporality, aggregation, ExporterFactory, host_options, header_options,
  traces_options, metrics_options, logs_options, delta_temporality_selector,
  exponential_histogram_selector,
}

-- The options without the selectors, which only metrics have.
abbrev pub without_selectors : List ExporterOption → List ExporterOption
without_selectors [] = []
without_selectors (temporality _ ∷ os) = without_selectors os
without_selectors (aggregation _ ∷ os) = without_selectors os
without_selectors (o ∷ os) = o ∷ without_selectors os

without_selectors-host_options :
    (destination : _) (os : List ExporterOption)
    → without_selectors (host_options destination ++ os)
      ≡ host_options destination ++ without_selectors os
without_selectors-host_options none os = refl
without_selectors-host_options (some (host, true)) os = refl
without_selectors-host_options (some (host, false)) os = refl

without_selectors-header_options :
    (hs : List (Text × Text)) → without_selectors (header_options hs) ≡ header_options hs
without_selectors-header_options [] = refl
without_selectors-header_options (h ∷ hs) = refl

-- For either protocol, the log exporter is built with the options of the trace exporter, and the
-- metric exporter with these and both selectors.
pub exporters_agree :
    (f : ExporterFactory)
    → (logs_options f ≡ traces_options f)
      × (without_selectors (metrics_options f) ≡ traces_options f)
      × Mem (temporality delta_temporality_selector) (metrics_options f)
      × Mem (aggregation exponential_histogram_selector) (metrics_options f)
unfolding traces_options metrics_options logs_options
exporters_agree f = by_protocol f.protocol refl
  where
    by_protocol :
        (p : Protocol)
        → f.protocol ≡ p
        → (logs_options f ≡ traces_options f)
          × (without_selectors (metrics_options f) ≡ traces_options f)
          × Mem (temporality delta_temporality_selector) (metrics_options f)
          × Mem (aggregation exponential_histogram_selector) (metrics_options f)
    by_protocol grpc e =
        rw e (refl, refl, inr (inr (inr (inl refl))), inr (inr (inr (inr (inl refl)))))
    by_protocol http e = rw e (
      refl,
      ap (λ os. gzip ∷ os)
          (rw
            (
              without_selectors-host_options (host_port f.insecure f.endpoint_url)
                  (header_options f.headers_given),
              without_selectors-header_options f.headers_given,
            )
            refl),
      inr (inl refl),
      inr (inr (inl refl)),
    )
