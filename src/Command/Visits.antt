-- ===== src/Command/Visits.antt =====
-- No call of EmitTrace is in vain: the run of a validated document, composed with Setup.
use otel_ecom_load_genrator.Prelude.{
  ◌≡◌, refl, sym, subst, ◌∙◌, some, List, [], ◌∷◌, Mem, All, All-mem, inl, inr, mem-map,
}
use otel_ecom_load_genrator.Prelude.Int.{ℤ}
use otel_ecom_load_genrator.Prelude.Text.{Text, contains_iff}
use otel_ecom_load_genrator.Prelude.Float64.{Float64}
use otel_ecom_load_genrator.Config.{File, Route, RootRoute, Service, Topology}
use otel_ecom_load_genrator.Config.Lookup.{find_service-mem, find_route-mem}
use otel_ecom_load_genrator.Validate.Verdict.{Node}
use otel_ecom_load_genrator.Validate.Cycles.{root_nodes}
use otel_ecom_load_genrator.Validate.Meaning.{Resolves, CallsOk, RootOk}
use otel_ecom_load_genrator.Validate.FileExact.{validate_with_warnings_iff}
use otel_ecom_load_genrator.Validate.Reached.{IsReached, root, call}
use otel_ecom_load_genrator.Engine.Emission.{resolve_visit}
use otel_ecom_load_genrator.Engine.Timing.{TimingMode}
use otel_ecom_load_genrator.Telemetry.Providers.{Providers}
use otel_ecom_load_genrator.Telemetry.Providers.Started.{names}
use otel_ecom_load_genrator.Telemetry.Providers.Ready.{setup_ready}
use otel_ecom_load_genrator.Telemetry.Assembly.Refines.{dial_of, build_of, set_up-setup}
use otel_ecom_load_genrator.Command.{Flags, World, generated, run}
use otel_ecom_load_genrator.Command.Traffic.{generated-Accepts}

module _ {F : Type 0} (t : Topology F) where
  root_nodes-Resolves :
      (roots : List RootRoute)
      → All (RootOk t) roots
      → (n : Node) → Mem n (root_nodes roots)
      → Resolves t n.service n.route
  unfolding root_nodes
  root_nodes-Resolves [] ok n m = absurd m
  root_nodes-Resolves (rr ∷ rest) ok n (inl e) =
      subst (λ (x : Node). Resolves t x.service x.route) (sym e) ok.0.resolves
  root_nodes-Resolves (rr ∷ rest) ok n (inr m) = root_nodes-Resolves rest ok.1 n m

  -- What a reached node calls is declared.
  IsReached-Resolves :
      (roots : List RootRoute)
      → All (CallsOk t) t.services
      → All (RootOk t) roots
      → (n : Node) → IsReached t (root_nodes roots) n
      → Resolves t n.service n.route
  IsReached-Resolves roots calls ok _ (root n m) = root_nodes-Resolves roots ok n m
  IsReached-Resolves roots calls ok _ (call m n h has) =
      let in_services = (find_service-mem t m.service has.svc has.found_service).0 in
      let in_routes = (find_route-mem has.svc m.route has.route has.found_route).0 in
      All-mem (λ (c : Text × Text). Resolves t c.0 c.1) (n.service, n.route)
        has.route.downstream_calls
        (All-mem (λ (r : Route F). All (λ (c : Text × Text). Resolves t c.0 c.1) r.downstream_calls)
          has.route has.svc.routes (All-mem (CallsOk t) has.svc t.services calls in_services)
          in_routes)
        has.entry

  -- A declared call whose service has an emitter is visited.
  Resolves-resolve_visit :
      (emitters : List Text) (n : Node) (found : Resolves t n.service n.route)
      → Mem n.service emitters
      → resolve_visit t emitters n ≡ some (found.svc, found.target)
  unfolding resolve_visit
  Resolves-resolve_visit emitters n found m =
      rw
        (
          found.found_service,
          found.found_route,
          (contains_iff n.service emitters).1 m,
          resolve_visit,
        )
        refl

-- Whenever a run generates load for a document, every route that a chain of calls reaches from a root
-- route is declared and its service has an Emitter, so that EmitTrace never takes one of its early
-- returns.
pub run-resolve_visit :
    {F : Type 0} ⦃fl : Float64 F⦄ (w : World F) (f : Flags) (file : File F) (p : Providers)
    (timing : TimingMode) (every : ℤ) (n : Node)
    → Mem (generated file p timing every) (run w f).steps
    → IsReached file.topology (root_nodes file.root_routes) n
    → (s : Service F) × (r : Route F) × (resolve_visit file.topology p.emitters n ≡ some (s, r))
run-resolve_visit w f file p timing every n m reached =
    let t = file.topology in
    let (accepted, (o, set)) = generated-Accepts w f file p timing every m in
    let ok = (validate_with_warnings_iff file).0 accepted in
    let found = IsReached-Resolves t file.root_routes ok.calls ok.roots n reached in
    let (declared, name) = find_service-mem t n.service found.svc found.found_service in
    let (trios, listed, fine) =
      setup_ready w.env (dial_of w.parts w.env w.sdk t o) (build_of w.parts w.env w.sdk t o) w.sdk t
        o p (sym (set_up-setup w.parts w.env w.sdk t o) ∙ set) in
    let named = mem-map (λ (s : Service _). s.service_name) found.svc t.services declared in
    let emits = (listed n.service).1 (subst (λ x. Mem x (names t.services)) name named) in
    (found.svc, found.target, Resolves-resolve_visit t p.emitters n found emits)
