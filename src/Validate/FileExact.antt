-- ===== src/Validate/FileExact.antt =====
-- ValidateWithWarnings accepts exactly the well-formed documents.
use otel_ecom_load_genrator.Prelude.{
  ◌≡◌, ◌≢◌, ◌↔◌, ◌⊎◌, inl, inr, ℕ, suc, refl, none, some, List, [], ◌∷◌, All, arith, Option-cases,
}
use otel_ecom_load_genrator.Prelude.Text.{Text}
use otel_ecom_load_genrator.Prelude.Float64.{Float64}
use otel_ecom_load_genrator.Config.{
  Route, Service, Topology, RootRoute, Surge, File, find_service, find_route,
}
use otel_ecom_load_genrator.Config.Lookup.{Distinct}
use otel_ecom_load_genrator.Validate.{
  add_warnings, check_surges, validate_file, validate_with_warnings,
}
use otel_ecom_load_genrator.Validate.Verdict.{Node, Accepts, no_services, no_root_routes}
use otel_ecom_load_genrator.Validate.Reachable.{unreachable_services}
use otel_ecom_load_genrator.Validate.ReachEnds.{unreachable_services_returns}
use otel_ecom_load_genrator.Validate.References.{
  check_call, check_calls, check_route_calls, check_references, check_root, check_roots,
}
use otel_ecom_load_genrator.Validate.Cycles.{
  Outcome, finished, found, spent, detect_cycles, report_cycle,
}
use otel_ecom_load_genrator.Validate.Cycles.Decides.{AllEnd, ReportsNone, detect_cycles_decides}
use otel_ecom_load_genrator.Validate.Meaning.{Resolves, SurgeOk, ServiceOk, CallsOk, RootOk}
use otel_ecom_load_genrator.Validate.Exact.{validate_surge_iff}
use otel_ecom_load_genrator.Validate.ServicesExact.{
  is_nil_iff, then_iff, require_iff, regroup, service_names, check_services_iff,
}

module _ {F : Type 0} (t : Topology F) where
  Resolves-cases :
      (service route : Text)
      → Resolves t service route
        ⊎ ((find_service t service ≡ none)
            ⊎ ((s : Service F) × (find_service t service ≡ some s) × (find_route s route ≡ none)))
  Resolves-cases service route = elim (Option-cases (find_service t service)) [
    | inl e ↦ inr (inl e)
    | inr (s, e) ↦ elim (Option-cases (find_route s route)) [
      | inl e' ↦ inr (inr (s, e, e'))
      | inr (r, e') ↦ inl (record { svc = s; found_service = e; target = r; found_route = e' })
    ]
  ]

  check_call_iff :
      (n : Node) (call : Text × Text) → Accepts (check_call t n call) ↔ Resolves t call.0 call.1
  unfolding check_call
  check_call_iff n (service, route) = elim (Resolves-cases service route) [
    | inl r ↦ (λ _. r, λ _. let e = r.found_service in let e' = r.found_route in ground arith)
    | inr (inl e) ↦ (λ h. ground arith, λ r. let e' = r.found_service in ground arith)
    | inr (inr (s, e, e')) ↦
        (λ h. ground arith, λ r. let f = r.found_service in let f' = r.found_route in ground arith)
  ]

  check_calls_iff :
      (n : Node) (calls : List (Text × Text))
      → Accepts (check_calls t n calls) ↔ All (λ (c : Text × Text). Resolves t c.0 c.1) calls
  unfolding check_calls
  check_calls_iff n [] = (λ _. tt, λ _. refl)
  check_calls_iff n (c ∷ calls) = then_iff _ _ (check_call_iff n c) (check_calls_iff n calls)

  check_route_calls_iff :
      (service : Text) (rs : List (Route F))
      → Accepts (check_route_calls t service rs)
        ↔ All (λ (r : Route F). All (λ (c : Text × Text). Resolves t c.0 c.1) r.downstream_calls) rs
  unfolding check_route_calls
  check_route_calls_iff service [] = (λ _. tt, λ _. refl)
  check_route_calls_iff service (r ∷ rs) =
      then_iff _ _ (check_calls_iff _ r.downstream_calls) (check_route_calls_iff service rs)

  check_references_iff :
      (ss : List (Service F)) → Accepts (check_references t ss) ↔ All (CallsOk t) ss
  unfolding check_references
  check_references_iff [] = (λ _. tt, λ _. refl)
  check_references_iff (s ∷ ss) =
      then_iff _ _ (check_route_calls_iff s.service_name s.routes) (check_references_iff ss)

  check_root_iff : (i : ℕ) (rr : RootRoute) → Accepts (check_root t i rr) ↔ RootOk t rr
  unfolding check_root
  check_root_iff i rr = elim (Resolves-cases rr.service rr.route) [
    | inl r ↦
        let e = r.found_service in
        let e' = r.found_route in
        (
          λ h. record { resolves = r; rate = ground arith },
          λ ok. let rate = ok.rate in ground arith,
        )
    | inr (inl e) ↦ (λ h. ground arith, λ ok. let e' = ok.resolves.found_service in ground arith)
    | inr (inr (s, e, e')) ↦ (
      λ h. ground arith,
      λ ok. let f = ok.resolves.found_service in let f' = ok.resolves.found_route in ground arith,
    )
  ]

  check_roots_iff :
      (i : ℕ) (roots : List RootRoute) → Accepts (check_roots t i roots) ↔ All (RootOk t) roots
  unfolding check_roots
  check_roots_iff i [] = (λ _. tt, λ _. refl)
  check_roots_iff i (rr ∷ roots) =
      then_iff _ _ (check_root_iff i rr) (check_roots_iff (suc i) roots)

report_cycle_iff : {F : Type 0} (f : File F) → Accepts (report_cycle (detect_cycles f)) ↔ AllEnd f
unfolding report_cycle
report_cycle_iff f =
    let decided = detect_cycles_decides f in
    (
      λ h. decided.0 (accepted (detect_cycles f) refl h),
      λ h. let (w, e) = decided.1 h in ground arith,
    )
  where
    accepted :
        (o : Outcome)
        → detect_cycles f ≡ o
        → Accepts (report_cycle (detect_cycles f))
        → ReportsNone f
    accepted (finished w) e h = (w, e)
    accepted (found stack n) e h = ground arith
    accepted spent e h = ground arith

module _ {F : Type 0} ⦃fl : Float64 F⦄ where
  check_surges_iff :
      (f : File F) (i : ℕ) (ss : List (Surge F))
      → Accepts (check_surges f i ss) ↔ All (SurgeOk f) ss
  unfolding check_surges
  check_surges_iff f i [] = (λ _. tt, λ _. refl)
  check_surges_iff f i (s ∷ ss) =
      then_iff _ _ (validate_surge_iff i s f) (check_surges_iff f (suc i) ss)

  -- A well-formed document.
  pub record FileOk (f : File F) : Type 0 where
    pub some_service : f.topology.services ≢ []
    pub some_root : f.root_routes ≢ []
    pub distinct : Distinct (service_names f.topology.services)
    pub services : All ServiceOk f.topology.services
    pub calls : All (CallsOk f.topology) f.topology.services
    pub roots : All (RootOk f.topology) f.root_routes
    pub all_end : AllEnd f
    pub surges : All (SurgeOk f) f.surges

  add_warnings_iff : (f : File F) → Accepts (add_warnings (unreachable_services f)) ↔ Unit {0}
  unfolding add_warnings
  add_warnings_iff f = (λ _. tt, λ _. ground (arith, unreachable_services_returns f))

  -- ValidateWithWarnings returns no error exactly for the well-formed documents: at least one service
  -- and one root route, distinct names, every service and route well formed, every call and root
  -- route resolved with a positive rate, no endless chain of calls from a root route, every surge well
  -- formed. A list of weights that is not empty has none below 0 and a sum that is not a multiple of
  -- 2^64; a surge's period in seconds is the one that 64 bits hold; an outlier multiplier is bounded
  -- only where the outlier rate is above 0.
  pub validate_with_warnings_iff :
      (f : File F) → Accepts (validate_with_warnings (some f)) ↔ FileOk f
  unfolding validate_with_warnings validate_file
  validate_with_warnings_iff f =
      let t = f.topology in
      regroup
        (then_iff _ _ (require_iff _ no_services (is_nil_iff t.services)) (
          then_iff _ _ (require_iff _ no_root_routes (is_nil_iff f.root_routes)) (
            then_iff _ _ (check_services_iff t.services) (
              then_iff _ _ (check_references_iff t t.services) (
                then_iff _ _ (check_roots_iff t 0 f.root_routes) (
                  then_iff _ _ (report_cycle_iff f)
                    (then_iff _ _ (check_surges_iff f 0 f.surges) (add_warnings_iff f))))))))
        (λ (s, (r, ((d, ok), (c, (rs, (e, (su, _))))))). record {
          some_service = s;
          some_root = r;
          distinct = d;
          services = ok;
          calls = c;
          roots = rs;
          all_end = e;
          surges = su;
        })
        (λ ok. (
          ok.some_service,
          (
            ok.some_root,
            ((ok.distinct, ok.services), (ok.calls, (ok.roots, (ok.all_end, (ok.surges, tt))))),
          ),
        ))
