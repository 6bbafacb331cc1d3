-- ===== src/Telemetry/Assembly/Orphans.antt =====
-- The providers that a Setup which gives up has started, and those that its Shutdown reaches.
use otel_ecom_load_genrator.Prelude.{
  ℕ, suc, ◌≡◌, ◌&&◌, refl, sym, ap, ◌∙◌, Bool, true, false, Option, none, some, List, [], ◌∷◌, ◌++◌,
  map, arith, if◌then◌else◌, subst, append-nil,
}
use otel_ecom_load_genrator.Prelude.Text.{Text, text_eq}
use otel_ecom_load_genrator.Config.{Service, Topology}
use otel_ecom_load_genrator.Telemetry.Endpoint.{Env, Options, Result, ok, err, Protocol, grpc, http}
use otel_ecom_load_genrator.Telemetry.Providers.{
  Signal, traces, metrics, logs, Op, flushing, shutting_down, Call, on, close, Providers, Sdk,
  Progress, Stage, resource, duration_histogram, request_counter, error_counter, SetUp, given_up,
  register, no_providers,
}
use otel_ecom_load_genrator.Telemetry.Providers.Laws.{on_each, closing, schedule}
use otel_ecom_load_genrator.Telemetry.Providers.Started.{upto, Trios, has_conn}
use otel_ecom_load_genrator.Telemetry.Providers.Ready.{setup_given_up}
use otel_ecom_load_genrator.Telemetry.Exporters.{ExporterFactory, all_exporters, factory_of}
use otel_ecom_load_genrator.Telemetry.Emitter.{
  Kind, counter, histogram, Made, made, failed, new_emitter, red_requests,
}
use otel_ecom_load_genrator.Telemetry.Assembly.{
  Parts, Added, not_started, orphaned, added, build_service, Live, no_live, dial_grpc, start,
  build_services, set_up, exporter_stage, instrument_stage,
}
use otel_ecom_load_genrator.Telemetry.Assembly.Refines.{dial_of, build_of, set_up-setup}

abbrev same_op : Op → Op → Bool
same_op flushing flushing = true
same_op shutting_down shutting_down = true
same_op _ _ = false

abbrev same_signal : Signal → Signal → Bool
same_signal traces traces = true
same_signal metrics metrics = true
same_signal logs logs = true
same_signal _ _ = false

-- The services on whose provider of the signal the operation is called, in the order of the calls.
unfoldable pub reached : Op → Signal → List Call → List ℕ
reached op signal [] = []
reached op signal (close ∷ cs) = reached op signal cs
reached op signal (on op' signal' i ∷ cs) =
    let rest = reached op signal cs in
    if same_op op op' && same_signal signal signal' then i ∷ rest else rest

-- newEmitter's stages.
abbrev pub is_instrument : Stage → Bool
is_instrument duration_histogram = true
is_instrument request_counter = true
is_instrument error_counter = true
is_instrument _ = false

module _ (op : Op) (signal : Signal) where
  reached-append :
      (xs ys : List Call)
      → reached op signal (xs ++ ys) ≡ reached op signal xs ++ reached op signal ys
  unfolding reached
  reached-append [] ys = refl
  reached-append (close ∷ xs) ys = reached-append xs ys
  reached-append (on op' signal' i ∷ xs) ys = let rest = reached-append xs ys in ground arith

  reached-map :
      (op' : Op) (signal' : Signal) (is : List ℕ)
      → reached op signal (map (on op' signal') is)
        ≡ (if same_op op op' && same_signal signal signal' then is else [])
  unfolding reached
  reached-map op' signal' [] = ground arith
  reached-map op' signal' (i ∷ is) = let rest = reached-map op' signal' is in ground arith

one_of_three :
    (b : Bool) (signal : Signal) (xs : List ℕ)
    → (if b && same_signal signal traces then xs else [])
        ++ ((if b && same_signal signal metrics then xs else [])
            ++ (if b && same_signal signal logs then xs else []))
      ≡ (if b then xs else [])
one_of_three false signal xs = refl
one_of_three true traces xs = append-nil xs
one_of_three true metrics xs = append-nil xs
one_of_three true logs xs = refl

module _ (j : ℕ) (conn : Bool) (q : Providers) (trios : Trios j conn q) where
  reached-on_each :
      (op : Op) (signal : Signal) (op' : Op)
      → reached op signal (on_each op' q) ≡ (if same_op op op' then upto j else [])
  reached-on_each op signal op' =
      rw
        (
          trios.trace,
          trios.metric,
          trios.log,
          reached-append op signal (map (on op' traces) (upto j))
              (map (on op' metrics) (upto j) ++ map (on op' logs) (upto j)),
          reached-append op signal (map (on op' metrics) (upto j)) (map (on op' logs) (upto j)),
          reached-map op signal op' traces (upto j),
          reached-map op signal op' metrics (upto j),
          reached-map op signal op' logs (upto j),
        )
        (one_of_three (same_op op op') signal (upto j))

  reached-closing : (op : Op) (signal : Signal) (b : Bool) → reached op signal (closing b) ≡ []
  unfolding reached
  reached-closing op signal true = refl
  reached-closing op signal false = refl

  -- Shutdown flushes, and shuts down, each signal's provider of the first j services and no other.
  reached-schedule : (op : Op) (signal : Signal) → reached op signal (schedule q) ≡ upto j
  reached-schedule op signal =
      reached-append op signal (on_each flushing q) (on_each shutting_down q ++ closing q.conn)
      ∙ rw
          (
            reached-append op signal (on_each shutting_down q) (closing q.conn),
            reached-on_each op signal flushing,
            reached-on_each op signal shutting_down,
            reached-closing op signal q.conn,
          )
          (by_op op)
    where
      by_op :
          (x : Op)
          → (if same_op x flushing then upto j else [])
              ++ ((if same_op x shutting_down then upto j else []) ++ [])
            ≡ upto j
      by_op flushing = append-nil (upto j)
      by_op shutting_down = append-nil (upto j)

-- Only newEmitter leaves providers behind.
abbrev Staged : Added → Type 0
Staged (not_started stage e) = is_instrument stage ≡ false
Staged (orphaned stage e) = is_instrument stage ≡ true
Staged (added em) = Unit

Staged-resource :
    (r : Option Text) (a : Added)
    → Staged a
    → Staged (elim r [ some e ↦ not_started resource e | none ↦ a ])
Staged-resource none a h = h
Staged-resource (some e) a h = refl

Staged-exporters :
    (r : Option (Signal × Text)) (a : Added)
    → Staged a
    → Staged (elim r [ some (signal, e) ↦ not_started (exporter_stage signal) e | none ↦ a ])
Staged-exporters none a h = h
Staged-exporters (some (traces, e)) a h = refl
Staged-exporters (some (metrics, e)) a h = refl
Staged-exporters (some (logs, e)) a h = refl

Staged-emitter :
    (m : Made)
    → Staged (elim m [ failed r e ↦ orphaned (instrument_stage r) e | made em ↦ added em ])
Staged-emitter (made em) = tt
Staged-emitter (failed r e) = by_kind r.kind (text_eq r.name red_requests.name)
  where
    by_kind :
        (k : Kind) (b : Bool)
        → is_instrument (elim k [
          | histogram ↦ duration_histogram
          | counter ↦ if b then request_counter else error_counter
        ])
          ≡ true
    by_kind histogram b = refl
    by_kind counter true = refl
    by_kind counter false = refl

-- What a Setup that gives up has started: the providers of the services before j, and of j itself
-- when newEmitter failed.
abbrev Accounted : SetUp → Live → Type 0
Accounted (given_up j stage e d) live =
    live.started ≡ upto (if is_instrument stage then suc j else j)
Accounted _ live = Unit

module _ {F : Type 0} (parts : Parts) (f : ExporterFactory) (o : Options) (sdk : Sdk) where
  build_service-Staged : (i : ℕ) (s : Service F) → Staged (build_service parts f o i s)
  unfolding build_service
  build_service-Staged i s = Staged-resource (parts.new_resource i _) _ (
      Staged-exporters (all_exporters (parts.new_exporter i) f) _
        (Staged-emitter (new_emitter (parts.meter i))))

  build_services-Accounted :
      (i : ℕ) (ss : List (Service F)) (p : Providers) (live : Live)
      → live.started ≡ upto i
      → Accounted
          (build_services parts f o sdk i ss p live).0
          (build_services parts f o sdk i ss p live).1
  unfolding build_services
  build_services-Accounted i [] p live h = tt
  build_services-Accounted i (s ∷ ss) p live h =
      by_result (build_service parts f o i s) refl (build_service-Staged i s)
        (λ live' h'. build_services-Accounted (suc i) ss (register i s.service_name p) live' h')
    where
      by_result :
          (a : Added)
          → build_service parts f o i s ≡ a
          → Staged a
          → ((live' : Live)
              → live'.started ≡ upto (suc i)
              → Accounted
                  (build_services parts f o sdk (suc i) ss (register i s.service_name p) live').0
                  (build_services parts f o sdk (suc i) ss (register i s.service_name p) live').1)
          → Accounted
              (build_services parts f o sdk i (s ∷ ss) p live).0
              (build_services parts f o sdk i (s ∷ ss) p live).1
      by_result (not_started stage x) e staged later = rw (e, staged, build_services) h
      by_result (orphaned stage x) e staged later =
          rw (e, staged, build_services) (ap (λ is. is ++ i ∷ []) h)
      by_result (added em) e staged later =
          rw (e, build_services)
            (later (record (start i live) { emitters = (s.service_name, em) ∷ live.emitters })
              (ap (λ is. is ++ i ∷ []) h))

module _ {F : Type 0} (parts : Parts) (env : Env) (sdk : Sdk) (t : Topology F) (o : Options) where
  set_up-Accounted : Accounted (set_up parts env sdk t o).0 (set_up parts env sdk t o).1
  unfolding set_up
  set_up-Accounted = by_factory (factory_of env o) refl
    where
      served :
          (f : ExporterFactory) (conn : Bool)
          → Accounted
              (build_services parts f o sdk 0 t.services (no_providers conn) no_live).0
              (build_services parts f o sdk 0 t.services (no_providers conn) no_live).1
      served f conn =
          build_services-Accounted parts f o sdk 0 t.services (no_providers conn) no_live refl

      by_protocol :
          (f : ExporterFactory) (protocol : Protocol) (d : Option Text)
          → factory_of env o ≡ ok f
          → f.protocol ≡ protocol
          → dial_grpc parts env f.endpoint_url o ≡ d
          → Accounted (set_up parts env sdk t o).0 (set_up parts env sdk t o).1
      by_protocol f http d e e' e'' = rw (e, e', set_up) (served f false)
      by_protocol f grpc none e e' e'' = rw (e, e', e'', set_up) (served f true)
      by_protocol f grpc (some x) e e' e'' = rw (e, e', e'', set_up) tt

      by_factory :
          (r : Result ExporterFactory)
          → factory_of env o ≡ r
          → Accounted (set_up parts env sdk t o).0 (set_up parts env sdk t o).1
      by_factory (err x) e = rw (e, set_up) tt
      by_factory (ok f) e =
          by_protocol f f.protocol (dial_grpc parts env f.endpoint_url o) e refl refl

  -- When Setup gives up at service j, its Shutdown calls each operation on each provider of exactly
  -- the services before j, in their order; the providers that have been started are those of the
  -- services before j and, when it is newEmitter that failed, those of j as well, which nothing then
  -- shuts down.
  pub set_up_orphans :
      (j : ℕ) (stage : Stage) (e : Text) (d : Progress)
      → (set_up parts env sdk t o).0 ≡ given_up j stage e d
      → ((set_up parts env sdk t o).1.started ≡ upto (if is_instrument stage then suc j else j))
        × ((op : Op) (signal : Signal) → reached op signal d.calls ≡ upto j)
  set_up_orphans j stage e d h =
      let (first, (q, trios, done)) =
        setup_given_up env (dial_of parts env sdk t o) (build_of parts env sdk t o) sdk t o j stage
          e d (sym (set_up-setup parts env sdk t o) ∙ h) in
      (
        subst (λ out. Accounted out (set_up parts env sdk t o).1) h set_up-Accounted,
        λ op signal.
            ap (reached op signal) done
            ∙ reached-schedule j (has_conn o.protocol) q trios op signal,
      )
