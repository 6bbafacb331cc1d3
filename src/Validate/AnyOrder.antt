-- ===== src/Validate/AnyOrder.antt =====
-- Whether a document is accepted does not depend on the order in which Go ranges over its maps of
-- calls; which error is returned may.
use mathlib.Core.List.{Permᴰ}
use otel_ecom_load_genrator.Prelude.{
  ◌≡◌, refl, sym, ap, ◌∙◌, subst, Option, none, some, List, [], ◌∷◌, map, All, Alike, All-Alike,
  Alike-map, All-imp, nonempty,
}
use otel_ecom_load_genrator.Prelude.Text.{Text}
use otel_ecom_load_genrator.Prelude.Float64.{Float64}
use otel_ecom_load_genrator.Config.{
  Route, Service, Topology, File, find_service_in, find_service, find_route_in, find_route,
}
use otel_ecom_load_genrator.Config.Listing.{All-Permᴰ}
use otel_ecom_load_genrator.Config.Lookup.{keys, Distinct}
use otel_ecom_load_genrator.Validate.{validate_with_warnings}
use otel_ecom_load_genrator.Validate.Verdict.{Accepts}
use otel_ecom_load_genrator.Validate.Meaning.{
  Resolves, RouteOk, ServiceOk, CallsOk, RootOk, SurgeOk,
}
use otel_ecom_load_genrator.Validate.Cycles.Decides.{detect_cycles_decides}
use otel_ecom_load_genrator.Validate.Cycles.MapOrder.{
  SameRoute, SameService, FoundRoute, FoundService, find_route_in-same, find_service_in-same,
  detect_cycles_any_order,
}
use otel_ecom_load_genrator.Validate.ServicesExact.{service_names}
use otel_ecom_load_genrator.Validate.FileExact.{FileOk, validate_with_warnings_iff}

module _ {F : Type 0} where
  -- The same route, with its map of calls listed in another order.
  abbrev pub RelistedRoute : Route F → Route F → Type 0
  RelistedRoute r r' =
      (calls : List (Text × Text)) × (r' ≡ record r { downstream_calls = calls })
      × Permᴰ r.downstream_calls calls
      × Distinct (keys r.downstream_calls)

  abbrev pub RelistedService : Service F → Service F → Type 0
  RelistedService s s' =
      (rs : List (Route F)) × (s' ≡ record s { routes = rs }) × Alike RelistedRoute s.routes rs

  RelistedRoute-SameRoute : (r r' : Route F) → RelistedRoute r r' → SameRoute r r'
  RelistedRoute-SameRoute r r' (calls, e, d, distinct) = (
    sym (ap (λ (x : Route F). x.route) e),
    subst (λ cs. Permᴰ r.downstream_calls cs) (sym (ap (λ (x : Route F). x.downstream_calls) e)) d,
    distinct,
  )

  RelistedService-SameService : (s s' : Service F) → RelistedService s s' → SameService s s'
  RelistedService-SameService s s' (rs, e, alike) = (
    sym (ap (λ (x : Service F). x.service_name) e),
    subst (λ xs. Alike SameRoute s.routes xs) (sym (ap (λ (x : Service F). x.routes) e))
        (Alike-map RelistedRoute SameRoute RelistedRoute-SameRoute s.routes rs alike),
  )

  route_names-same :
      (rs rs' : List (Route F))
      → Alike RelistedRoute rs rs'
      → map (λ (r : Route F). r.route) rs ≡ map (λ (r : Route F). r.route) rs'
  route_names-same [] [] h = refl
  route_names-same (r ∷ rs) (r' ∷ rs') h =
      λ t. sym (ap (λ (x : Route F). x.route) h.0.1) t ∷ route_names-same rs rs' h.1 t
  route_names-same [] (r' ∷ rs') h = absurd h
  route_names-same (r ∷ rs) [] h = absurd h

  Resolves-same :
      (t t' : Topology F) (service route : Text)
      → Alike SameService t.services t'.services
      → Resolves t service route
      → Resolves t' service route
  unfolding find_service find_route
  Resolves-same t t' service route same ok = by_service (find_service_in t'.services service) refl (
      subst (λ x. FoundService x (find_service_in t'.services service)) ok.found_service
        (find_service_in-same t.services t'.services service same))
    where
      by_route :
          (s' : Service F)
          → find_service_in t'.services service ≡ some s'
          → (r : Option (Route F)) → find_route_in s'.routes route ≡ r
          → FoundRoute (some ok.target) r
          → Resolves t' service route
      by_route s' e (some r') e' h = record {
        svc = s';
        found_service = e;
        target = r';
        found_route = e';
      }
      by_route s' e none e' h = absurd h

      by_service :
          (s : Option (Service F))
          → find_service_in t'.services service ≡ s
          → FoundService (some ok.svc) s
          → Resolves t' service route
      by_service (some s') e h = by_route s' e (find_route_in s'.routes route) refl (
          subst (λ x. FoundRoute x (find_route_in s'.routes route)) ok.found_route
            (find_route_in-same ok.svc.routes s'.routes route h.1))
      by_service none e h = absurd h

  CallsOk-same :
      (t t' : Topology F)
      → Alike SameService t.services t'.services
      → (s s' : Service F) → RelistedService s s'
      → CallsOk t s
      → CallsOk t' s'
  CallsOk-same t t' same s s' (rs, e, alike) ok = subst (CallsOk t') (sym e) (
      All-Alike RelistedRoute
        (λ r. All (λ (c : Text × Text). Resolves t c.0 c.1) r.downstream_calls)
        (λ r. All (λ (c : Text × Text). Resolves t' c.0 c.1) r.downstream_calls)
        (λ r r' relisted all.
          subst (λ (cs : List (Text × Text)). All (λ (c : Text × Text). Resolves t' c.0 c.1) cs)
            (sym (ap (λ (x : Route F). x.downstream_calls) relisted.1))
            (All-Permᴰ (λ (c : Text × Text). Resolves t' c.0 c.1) relisted.2
              (All-imp (λ (c : Text × Text). Resolves t c.0 c.1)
                (λ (c : Text × Text). Resolves t' c.0 c.1) (λ c. Resolves-same t t' c.0 c.1 same)
                r.downstream_calls all)))
        s.routes rs alike ok)

module _ {F : Type 0} ⦃fl : Float64 F⦄ where
  service_names-same :
      (ss ss' : List (Service F))
      → Alike RelistedService ss ss'
      → service_names ss ≡ service_names ss'
  service_names-same [] [] h = refl
  service_names-same (s ∷ ss) (s' ∷ ss') h =
      λ t. sym (ap (λ (x : Service F). x.service_name) h.0.1) t ∷ service_names-same ss ss' h.1 t
  service_names-same [] (s' ∷ ss') h = absurd h
  service_names-same (s ∷ ss) [] h = absurd h

  RouteOk-same : (r r' : Route F) → RelistedRoute r r' → RouteOk r → RouteOk r'
  RouteOk-same r r' (calls, e, d, distinct) ok =
      let same : RouteOk (record r { downstream_calls = calls }) = record {
        named = ok.named;
        kind = ok.kind;
        latency = ok.latency;
        attributes = ok.attributes;
        events = ok.events;
        metrics = ok.metrics;
      } in
      subst RouteOk (sym e) same

  ServiceOk-same : (s s' : Service F) → RelistedService s s' → ServiceOk s → ServiceOk s'
  ServiceOk-same s s' (rs, e, alike) ok =
      let same : ServiceOk (record s { routes = rs }) = record {
        named = ok.named;
        some_instance = ok.some_instance;
        instances = ok.instances;
        some_route = nonempty RelistedRoute s.routes rs alike ok.some_route;
        attributes = ok.attributes;
        events = ok.events;
        distinct = subst Distinct (route_names-same s.routes rs alike) ok.distinct;
        routes = All-Alike RelistedRoute RouteOk RouteOk RouteOk-same s.routes rs alike ok.routes;
      } in
      subst ServiceOk (sym e) same

  -- The document with its services in this form.
  abbrev pub with_services : File F → List (Service F) → File F
  with_services f ss = record f { topology = record { services = ss } }

  FileOk-same :
      (f : File F) (ss : List (Service F))
      → Alike RelistedService f.topology.services ss
      → FileOk f
      → FileOk (with_services f ss)
  FileOk-same f ss alike ok =
      let t' : Topology F = record { services = ss } in
      let same =
        Alike-map RelistedService SameService RelistedService-SameService f.topology.services ss
          alike in
      record {
        some_service = nonempty RelistedService f.topology.services ss alike ok.some_service;
        some_root = ok.some_root;
        distinct = subst Distinct (service_names-same f.topology.services ss alike) ok.distinct;
        services =
            All-Alike RelistedService ServiceOk ServiceOk ServiceOk-same f.topology.services ss
              alike ok.services;
        calls =
            All-Alike RelistedService (CallsOk f.topology) (CallsOk t')
              (CallsOk-same f.topology t' same) f.topology.services ss alike ok.calls;
        roots =
            All-imp (RootOk f.topology) (RootOk t')
              (λ rr h. record {
                resolves = Resolves-same f.topology t' rr.service rr.route same h.resolves;
                rate = h.rate;
              })
              f.root_routes ok.roots;
        all_end =
            let (w, finishes) = (detect_cycles_decides f).1 ok.all_end in
            (detect_cycles_decides (with_services f ss)).0
              (w, sym (detect_cycles_any_order f (with_services f ss) same refl) ∙ finishes);
        surges =
            All-imp (SurgeOk f) (SurgeOk (with_services f ss))
              (λ s h. record {
                period = h.period;
                duration = h.duration;
                positive = h.positive;
                shorter = h.shorter;
                multiplier = h.multiplier;
                routes = h.routes;
              })
              f.surges ok.surges;
      }

  -- Where ValidateWithWarnings accepts a document, it accepts it with the pairs of each map of calls in
  -- any other order: what is accepted does not depend on the order in which Go ranges over them.
  pub validate_with_warnings_any_order :
      (f : File F) (ss : List (Service F))
      → Alike RelistedService f.topology.services ss
      → Accepts (validate_with_warnings (some f))
      → Accepts (validate_with_warnings (some (with_services f ss)))
  validate_with_warnings_any_order f ss alike accepted =
      (validate_with_warnings_iff (with_services f ss)).1
        (FileOk-same f ss alike ((validate_with_warnings_iff f).0 accepted))
