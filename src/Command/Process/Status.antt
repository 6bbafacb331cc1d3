-- ===== src/Command/Process/Status.antt =====
-- The status of the process does not depend on the flush.
use otel_ecom_load_genrator.Prelude.{
  ℕ, suc, ◌≡◌, refl, ap, true, false, Option, none, some, List, [], ◌∷◌, arith,
}
use otel_ecom_load_genrator.Prelude.Text.{Text}
use otel_ecom_load_genrator.Prelude.Float64.{Float64}
use otel_ecom_load_genrator.Config.{Service, Topology, File}
use otel_ecom_load_genrator.Validate.Verdict.{Warning}
use otel_ecom_load_genrator.Validate.Load.{Loaded, loaded, not_loaded, load}
use otel_ecom_load_genrator.Engine.Emission.{Counters}
use otel_ecom_load_genrator.Engine.Timing.{TimingMode, parse_timing_mode}
use otel_ecom_load_genrator.Telemetry.Endpoint.{
  Backend, Protocol, Options, Result, ok, err, grpc, http, parse_backend, parse_protocol,
}
use otel_ecom_load_genrator.Telemetry.Exporters.{ExporterFactory, factory_of}
use otel_ecom_load_genrator.Telemetry.Providers.{
  Providers, Sdk, SetUp, shutdown, ready, refused, not_connected, given_up, register, no_providers,
}
use otel_ecom_load_genrator.Telemetry.Assembly.{
  Parts, Added, Live, no_live, start, not_started, orphaned, added, build_service, build_services,
  dial_grpc, set_up,
}
use otel_ecom_load_genrator.Command.{
  Flags, World, RunFault, not_set_up, no_connection, no_service, options_of, set_up_run, start_run,
  loaded_run, run,
}
use otel_ecom_load_genrator.Command.Process.{CommandLine, given, misused, parse_flags, main}

-- The error of a run whose Setup ends in this way.
abbrev set_up_fault : SetUp → Option RunFault
set_up_fault (ready p) = none
set_up_fault (refused e) = some (not_set_up e)
set_up_fault (not_connected e) = some (no_connection e)
set_up_fault (given_up i stage e d) = some (no_service i e)

module _ {F : Type 0} (parts : Parts) (f : ExporterFactory) (o : Options) where
  -- What the loop of Setup does with the result of addService.
  abbrev go_on : Sdk → ℕ → Service F → List (Service F) → Providers → Live → Added → SetUp × Live
  go_on sdk i s ss p live a = elim a [
    | not_started stage e ↦ (given_up i stage e (shutdown sdk p), live)
    | orphaned stage e ↦ (given_up i stage e (shutdown sdk p), start i live)
    | added em ↦
        build_services parts f o sdk (suc i) ss (register i s.service_name p)
          (record (start i live) { emitters = (s.service_name, em) ∷ live.emitters })
  ]

  build_services-fault :
      (sdk sdk' : Sdk) (i : ℕ) (ss : List (Service F)) (p : Providers) (live : Live)
      → set_up_fault (build_services parts f o sdk i ss p live).0
        ≡ set_up_fault (build_services parts f o sdk' i ss p live).0
  unfolding build_services
  build_services-fault sdk sdk' i [] p live = refl
  build_services-fault sdk sdk' i (s ∷ ss) p live =
      elim (build_service parts f o i s)
        as (λ a.
          set_up_fault (go_on sdk i s ss p live a).0
          ≡ set_up_fault (go_on sdk' i s ss p live a).0) [
            | not_started stage e ↦ refl
            | orphaned stage e ↦ refl
            | added em ↦
                build_services-fault sdk sdk' (suc i) ss (register i s.service_name p)
                  (record (start i live) { emitters = (s.service_name, em) ∷ live.emitters })
          ]

module _ {F : Type 0} (w : World F) (sdk : Sdk) (counted : Counters) where
  abbrev other : World F
  other = record w { sdk = sdk; counted = counted }

  set_up-fault :
      (t : Topology F) (o : Options)
      → set_up_fault (set_up w.parts w.env w.sdk t o).0
        ≡ set_up_fault (set_up w.parts w.env sdk t o).0
  unfolding set_up
  set_up-fault t o = by_factory (factory_of w.env o) refl
    where
      by_protocol :
          (f : ExporterFactory)
          → factory_of w.env o ≡ ok f
          → (protocol : Protocol) → f.protocol ≡ protocol
          → (d : Option Text) → dial_grpc w.parts w.env f.endpoint_url o ≡ d
          → set_up_fault (set_up w.parts w.env w.sdk t o).0
            ≡ set_up_fault (set_up w.parts w.env sdk t o).0
      by_protocol f h http e d e' =
          let served =
            build_services-fault w.parts f o w.sdk sdk 0 t.services (no_providers false) no_live in
          ground arith
      by_protocol f h grpc e none e' =
          let served =
            build_services-fault w.parts f o w.sdk sdk 0 t.services (no_providers true) no_live in
          ground arith
      by_protocol f h grpc e (some x) e' = ground arith

      by_factory :
          (r : Result ExporterFactory)
          → factory_of w.env o ≡ r
          → set_up_fault (set_up w.parts w.env w.sdk t o).0
            ≡ set_up_fault (set_up w.parts w.env sdk t o).0
      by_factory (err e) h = ground arith
      by_factory (ok f) h =
          by_protocol f h f.protocol refl (dial_grpc w.parts w.env f.endpoint_url o) refl

  set_up_run-fault :
      (v : World F) (f : Flags) (file : File F) (backend : Backend) (protocol : Protocol)
      (timing : TimingMode) (s : SetUp)
      → (set_up_run v f file backend protocol timing s).fault ≡ set_up_fault s
  unfolding set_up_run
  set_up_run-fault v f file backend protocol timing (ready p) = refl
  set_up_run-fault v f file backend protocol timing (refused e) = refl
  set_up_run-fault v f file backend protocol timing (not_connected e) = refl
  set_up_run-fault v f file backend protocol timing (given_up i stage e d) = refl

  start_run-fault :
      (f : Flags) (file : File F) → (start_run w f file).fault ≡ (start_run other f file).fault
  unfolding start_run
  start_run-fault f file =
      by_flags (parse_backend f.backend) refl (parse_protocol f.protocol) refl
        (parse_timing_mode f.timing) refl
    where
      by_flags :
          (b : Result Backend)
          → parse_backend f.backend ≡ b
          → (r : Result Protocol) → parse_protocol f.protocol ≡ r
          → (m : Option TimingMode) → parse_timing_mode f.timing ≡ m
          → (start_run w f file).fault ≡ (start_run other f file).fault
      by_flags (err e) eb r er m em = ground arith
      by_flags (ok b) eb (err e) er m em = ground arith
      by_flags (ok b) eb (ok r) er none em = ground arith
      by_flags (ok b) eb (ok r) er (some timing) em =
          let set = set_up-fault file.topology (options_of f b r) in
          let here =
            set_up_run-fault w f file b r timing
              (set_up w.parts w.env w.sdk file.topology (options_of f b r)).0 in
          let there =
            set_up_run-fault other f file b r timing
              (set_up w.parts w.env sdk file.topology (options_of f b r)).0 in
          ground arith

  loaded_run-fault :
      (f : Flags) (file : File F) (ws : List Warning)
      → (loaded_run w f file ws).fault ≡ (loaded_run other f file ws).fault
  unfolding loaded_run
  loaded_run-fault f file ws = let started = start_run-fault f file in ground arith

module _ {F : Type 0} ⦃fl : Float64 F⦄ (w : World F) (sdk : Sdk) (counted : Counters) where
  run-fault : (f : Flags) → (run w f).fault ≡ (run (other w sdk counted) f).fault
  unfolding run
  run-fault f = by_load (load w.read w.decode f.topology) refl
    where
      by_load :
          (l : Loaded F)
          → load w.read w.decode f.topology ≡ l
          → (run w f).fault ≡ (run (other w sdk counted) f).fault
      by_load (not_loaded ws e) h = ground arith
      by_load (loaded file ws) h =
          let whole = loaded_run-fault w sdk counted f file ws in ground arith

  -- Whatever the calls on the providers return, during a failed Setup or at the end, and whatever the
  -- engine has counted, panics included: the process ends with the same status and the same error.
  pub main-unflushed :
      (c : CommandLine)
      → ((main w c).status ≡ (main (record w { sdk = sdk; counted = counted }) c).status)
        × ((main w c).printed ≡ (main (record w { sdk = sdk; counted = counted }) c).printed)
  unfolding main
  main-unflushed (misused status) = (refl, refl)
  main-unflushed (given settings) =
      let same = run-fault (parse_flags settings) in
      (ap (λ (e : Option RunFault). elim e as (λ _. ℕ) [ none ↦ 0 | some _ ↦ 1 ]) same, same)
