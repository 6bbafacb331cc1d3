-- ===== src/Validate/ServicesExact.antt =====
-- The passes over services, routes, calls and root routes accept exactly what is well formed.
use otel_ecom_load_genrator.Prelude.{
  ⊎_elim, ◌≡◌, ◌≢◌, ◌↔◌, inl, inr, ℕ, suc, refl, sym, true, Bool, not, List, [], ◌∷◌, map, Mem, All,
  arith,
}
use otel_ecom_load_genrator.Prelude.Text.{Text, contains_iff, not-contains_iff, not-text_eq_iff}
use otel_ecom_load_genrator.Prelude.Float64.{Float64}
use otel_ecom_load_genrator.Config.{BusinessMetric, Route, Service}
use otel_ecom_load_genrator.Config.Lookup.{Distinct}
use otel_ecom_load_genrator.Validate.Verdict.{
  Place, at_service, at_route, Accepts, Report, Error, require, ◌>>◌, >>-Accepts_iff,
  require-Accepts_iff, no_instances, no_routes, empty_service_name, duplicate_service,
  empty_instance, empty_route, duplicate_route, invalid_span_kind,
}
use otel_ecom_load_genrator.Validate.Services.{
  is_nil, valid_span_kinds, check_instances, check_metrics, check_route, check_routes,
  check_service, check_services,
}
use otel_ecom_load_genrator.Validate.Meaning.{MetricOk, RouteOk, ServiceOk}
use otel_ecom_load_genrator.Validate.Exact.{
  validate_latency_iff, validate_business_metric_iff, validate_weighted_iff,
}

pub is_nil_iff : {A : Type 0} (xs : List A) → (not (is_nil xs) ≡ true) ↔ (xs ≢ [])
is_nil_iff xs = ground arith

-- One step of a loop: a check that decides `P`, and then the rest, which decides `Q`.
pub then_iff :
    {P Q : Type 0} (r k : Report) → Accepts r ↔ P → Accepts k ↔ Q → Accepts (r >> k) ↔ (P × Q)
then_iff r k hr hk = ground (arith, >>-Accepts_iff r k)

pub regroup : {A B C : Type 0} → A ↔ B → (B → C) → (C → B) → A ↔ C
regroup h f g = (λ a. f (h.0 a), λ c. h.1 (g c))

pub require_iff : {P : Type 0} (b : Bool) (e : Error) → (b ≡ true) ↔ P → Accepts (require b e) ↔ P
require_iff b e h = ground (arith, require-Accepts_iff b e)

check_instances_iff :
    (name : Text) (j : ℕ) (insts : List Text)
    → Accepts (check_instances name j insts) ↔ All (λ i. i ≢ []) insts
unfolding check_instances
check_instances_iff name j [] = (λ _. tt, λ _. refl)
check_instances_iff name j (i ∷ rest) =
    then_iff _ _ (require_iff _ (empty_instance name j) (not-text_eq_iff i []))
      (check_instances_iff name (suc j) rest)

module _ {F : Type 0} ⦃fl : Float64 F⦄ where
  check_metrics_iff :
      (p : Place) (k : ℕ) (ms : List (BusinessMetric F))
      → Accepts (check_metrics p k ms) ↔ All MetricOk ms
  unfolding check_metrics
  check_metrics_iff p k [] = (λ _. tt, λ _. refl)
  check_metrics_iff p k (m ∷ ms) =
      then_iff _ _ (validate_business_metric_iff p k m) (check_metrics_iff p (suc k) ms)

  check_route_iff :
      (service : Text) (seen : List Text) (j : ℕ) (r : Route F)
      → Accepts (check_route service seen j r) ↔ ((¬ Mem r.route seen) × RouteOk r)
  unfolding check_route
  check_route_iff service seen j r =
      regroup
        (then_iff _ _ (require_iff _ (empty_route service j) (not-text_eq_iff r.route [])) (
          then_iff _ _
            (require_iff _ (duplicate_route service r.route) (not-contains_iff r.route seen))
            (then_iff _ _
              (require_iff _ (invalid_span_kind service r.route r.span_kind)
                (contains_iff r.span_kind valid_span_kinds))
              (then_iff _ _ (validate_latency_iff (at_route service r.route) r.latency) (
                then_iff _ _
                  (validate_weighted_iff (at_route service r.route) r.attribute_sets r.event_sets)
                  (check_metrics_iff (at_route service r.route) 0 r.metrics.business))))))
        (λ (n, (d, (k, (l, ((a, e), m))))).
          (d, record { named = n; kind = k; latency = l; attributes = a; events = e; metrics = m }))
        (λ (d, ok).
          (ok.named, (d, (ok.kind, (ok.latency, ((ok.attributes, ok.events), ok.metrics))))))

-- None of the names has been seen.
abbrev NewTo : List Text → List Text → Type 0
NewTo seen names = All (λ n. ¬ Mem n seen) names

NewTo-cons_iff :
    (x : Text) (seen names : List Text)
    → NewTo (x ∷ seen) names ↔ (NewTo seen names × (¬ Mem x names))
NewTo-cons_iff x seen [] = (λ _. (tt, λ m. m), λ _. tt)
NewTo-cons_iff x seen (n ∷ names) = (
  λ (h, rest).
      let (old, absent) = (NewTo-cons_iff x seen names).0 rest in
      ((λ m. h (inr m), old), ⊎_elim (λ e. h (inl (sym e))) absent),
  λ ((h, old), absent). (
    ⊎_elim (λ e. absent (inl (sym e))) h,
    (NewTo-cons_iff x seen names).1 (old, λ m. absent (inr m)),
  ),
)

NewTo-nil : (names : List Text) → NewTo [] names
NewTo-nil [] = tt
NewTo-nil (n ∷ names) = (λ m. m, NewTo-nil names)

module _ {F : Type 0} ⦃fl : Float64 F⦄ where
  abbrev route_names : List (Route F) → List Text
  route_names rs = map (λ (r : Route F). r.route) rs

  check_routes_iff :
      (service : Text) (seen : List Text) (j : ℕ) (rs : List (Route F))
      → Accepts (check_routes service seen j rs)
        ↔ (NewTo seen (route_names rs) × (Distinct (route_names rs) × All RouteOk rs))
  unfolding check_routes
  check_routes_iff service seen j [] = (λ _. (tt, (tt, tt)), λ _. refl)
  check_routes_iff service seen j (r ∷ rs) =
      let fresh_iff = NewTo-cons_iff r.route seen (route_names rs) in
      regroup
        (then_iff _ _ (check_route_iff service seen j r)
          (check_routes_iff service (r.route ∷ seen) (suc j) rs))
        (λ ((new, ok), (rest_new, (rest_distinct, rest_ok))). (
          (new, (fresh_iff.0 rest_new).0),
          (((fresh_iff.0 rest_new).1, rest_distinct), (ok, rest_ok)),
        ))
        (λ ((new, rest_new), ((absent, rest_distinct), (ok, rest_ok))).
          ((new, ok), (fresh_iff.1 (rest_new, absent), (rest_distinct, rest_ok))))

  check_service_iff :
      (seen : List Text) (i : ℕ) (s : Service F)
      → Accepts (check_service seen i s) ↔ ((¬ Mem s.service_name seen) × ServiceOk s)
  unfolding check_service
  check_service_iff seen i s =
      let name = s.service_name in
      regroup
        (then_iff _ _ (require_iff _ (empty_service_name i) (not-text_eq_iff name [])) (
          then_iff _ _ (require_iff _ (duplicate_service name) (not-contains_iff name seen)) (
            then_iff _ _ (require_iff _ (no_instances name) (is_nil_iff s.instances)) (
              then_iff _ _ (check_instances_iff name 0 s.instances) (
                then_iff _ _ (require_iff _ (no_routes name) (is_nil_iff s.routes)) (
                  then_iff _ _
                    (validate_weighted_iff (at_service name) s.attribute_sets s.event_sets)
                    (check_routes_iff name [] 0 s.routes)))))))
        (λ (n, (d, (i1, (i2, (r1, ((a, e), (_, (dr, rs)))))))). (
          d,
          record {
            named = n;
            some_instance = i1;
            instances = i2;
            some_route = r1;
            attributes = a;
            events = e;
            distinct = dr;
            routes = rs;
          },
        ))
        (λ (d, ok). (
          ok.named,
          (
            d,
            (
              ok.some_instance,
              (
                ok.instances,
                (
                  ok.some_route,
                  (
                    (ok.attributes, ok.events),
                    (NewTo-nil (route_names s.routes), (ok.distinct, ok.routes)),
                  ),
                ),
              ),
            ),
          ),
        ))

  abbrev pub service_names : List (Service F) → List Text
  service_names ss = map (λ (s : Service F). s.service_name) ss

  check_services_from_iff :
      (seen : List Text) (i : ℕ) (ss : List (Service F))
      → Accepts (check_services seen i ss)
        ↔ (NewTo seen (service_names ss) × (Distinct (service_names ss) × All ServiceOk ss))
  unfolding check_services
  check_services_from_iff seen i [] = (λ _. (tt, (tt, tt)), λ _. refl)
  check_services_from_iff seen i (s ∷ ss) =
      let fresh_iff = NewTo-cons_iff s.service_name seen (service_names ss) in
      regroup
        (then_iff _ _ (check_service_iff seen i s)
          (check_services_from_iff (s.service_name ∷ seen) (suc i) ss))
        (λ ((new, ok), (rest_new, (rest_distinct, rest_ok))). (
          (new, (fresh_iff.0 rest_new).0),
          (((fresh_iff.0 rest_new).1, rest_distinct), (ok, rest_ok)),
        ))
        (λ ((new, rest_new), ((absent, rest_distinct), (ok, rest_ok))).
          ((new, ok), (fresh_iff.1 (rest_new, absent), (rest_distinct, rest_ok))))

  -- The first pass accepts a list of services exactly when their names are distinct and each is well formed.
  pub check_services_iff :
      (ss : List (Service F))
      → Accepts (check_services [] 0 ss) ↔ (Distinct (service_names ss) × All ServiceOk ss)
  check_services_iff ss =
      regroup (check_services_from_iff [] 0 ss) (λ h. h.1) (λ h. (NewTo-nil (service_names ss), h))
