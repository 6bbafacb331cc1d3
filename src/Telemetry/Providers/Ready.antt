-- ===== src/Telemetry/Providers/Ready.antt =====
-- What Setup leaves behind, in both of its outcomes.
use otel_ecom_load_genrator.Prelude.{
  ℕ, ◌+◌, ◌<◌, ◌≡◌, ◌↔◌, inl, inr, refl, ap, subst, ◌∙◌, Bool, true, false, Option, none, some,
  List, arith, Mem, length,
}
use otel_ecom_load_genrator.Prelude.Text.{Text}
use otel_ecom_load_genrator.Config.{Topology}
use otel_ecom_load_genrator.Telemetry.Endpoint.{
  Env, Options, Fault, Result, ok, err, Protocol, grpc, http, resolve_endpoint, headers,
}
use otel_ecom_load_genrator.Telemetry.Providers.{
  Providers, Sdk, Progress, Stage, Build, stages, first_error, SetUp, ready, refused, given_up,
  no_providers, connect, setup,
}
use otel_ecom_load_genrator.Telemetry.Providers.Laws.{schedule, shutdown_lem}
use otel_ecom_load_genrator.Telemetry.Providers.Started.{
  has_conn, Trios, names, GivenUp, Ready, add_services-GivenUp, add_services-Ready,
}

no_providers-Trios : (conn : Bool) → Trios 0 conn (no_providers conn)
no_providers-Trios conn = record { trace = refl; metric = refl; log = refl; connected = refl }

module _ {F : Type 0} (env : Env) (dial : Option Text) (build : Build) (sdk : Sdk) (t : Topology F)
    (o : Options) where
  -- Setup is refused, or goes on to connect.
  setup-connect :
      (P : SetUp → Type 0)
      → ((e : Fault) → P (refused e))
      → P (connect dial build sdk o.protocol t.services)
      → P (setup env dial build sdk t o)
  unfolding setup
  setup-connect P no_start connected = by_endpoint (resolve_endpoint env o)
    where
      by_headers :
          (r : Result (List (Text × Text)))
          → P (elim r [ err e ↦ refused e | ok _ ↦ connect dial build sdk o.protocol t.services ])
      by_headers (err e) = no_start e
      by_headers (ok _) = connected

      by_endpoint :
          (r : Result Text)
          → P (elim r [
            | err e ↦ refused e
            | ok _ ↦ elim (headers env o) [
              | err e ↦ refused e
              | ok _ ↦ connect dial build sdk o.protocol t.services
            ]
          ])
      by_endpoint (err e) = no_start e
      by_endpoint (ok _) = by_headers (headers env o)

  connect-GivenUp :
      (given : Option Text) (protocol : Protocol)
      → GivenUp build sdk (has_conn protocol) (connect given build sdk protocol t.services)
  unfolding connect
  connect-GivenUp given http =
      add_services-GivenUp build sdk false 0 t.services (no_providers false)
        (no_providers-Trios false)
  connect-GivenUp (some e) grpc = tt
  connect-GivenUp none grpc =
      add_services-GivenUp build sdk true 0 t.services (no_providers true) (no_providers-Trios true)

  abbrev AllReady : Bool → SetUp → Type 0
  AllReady conn = Ready build sdk conn 0 t.services (no_providers conn)

  connect-Ready :
      (given : Option Text) (protocol : Protocol)
      → AllReady (has_conn protocol) (connect given build sdk protocol t.services)
  unfolding connect
  connect-Ready given http =
      add_services-Ready build sdk false 0 t.services (no_providers false)
        (no_providers-Trios false)
  connect-Ready (some e) grpc = tt
  connect-Ready none grpc =
      add_services-Ready build sdk true 0 t.services (no_providers true) (no_providers-Trios true)

-- When Setup gives up at service j, that is for the first error among the steps of that service, and
-- it has run a Shutdown of exactly the providers of the services before j: of none of service j.
pub setup_given_up :
    {F : Type 0} (env : Env) (dial : Option Text) (build : Build) (sdk : Sdk) (t : Topology F)
    (o : Options) (j : ℕ) (stage : Stage) (e : Text) (d : Progress)
    → setup env dial build sdk t o ≡ given_up j stage e d
    → (first_error build j stages ≡ some (stage, e))
      × ((q : Providers) × Trios j (has_conn o.protocol) q × (d.calls ≡ schedule q))
setup_given_up env dial build sdk t o j stage e d h =
    let (first, (q, trios, done)) = subst (GivenUp build sdk (has_conn o.protocol)) h (
      setup-connect env dial build sdk t o (GivenUp build sdk (has_conn o.protocol)) (λ e'. tt)
        (connect-GivenUp env dial build sdk t o dial o.protocol)) in
    (first, (q, trios, ap (λ (x : Progress). x.calls) (done ∙ shutdown_lem sdk q)))

-- When Setup succeeds, every service has its trio of providers, in the topology's order, the services
-- with an Emitter are exactly those of the topology, there is a connection exactly for gRPC, and no
-- step of any service failed.
pub setup_ready :
    {F : Type 0} (env : Env) (dial : Option Text) (build : Build) (sdk : Sdk) (t : Topology F)
    (o : Options) (p : Providers)
    → setup env dial build sdk t o ≡ ready p
    → Trios (length t.services) (has_conn o.protocol) p
      × ((name : Text) → Mem name p.emitters ↔ Mem name (names t.services))
      × ((j : ℕ) → j < length t.services → first_error build j stages ≡ none)
setup_ready env dial build sdk t o p h =
    let (trios, listed, fine) = subst (AllReady env dial build sdk t o (has_conn o.protocol)) h (
      setup-connect env dial build sdk t o (AllReady env dial build sdk t o (has_conn o.protocol))
        (λ e'. tt) (connect-Ready env dial build sdk t o dial o.protocol)) in
    let count : 0 + length t.services ≡ length t.services = omega arith in
    (
      subst (λ n. Trios n (has_conn o.protocol) p) count trios,
      λ name. (
        λ m. elim ((listed name).0 m) [ inl wrong ↦ absurd wrong | inr found ↦ found ],
        λ m. (listed name).1 (inr m),
      ),
      λ j high. fine j (omega arith) (omega arith),
    )
