-- ===== src/Validate/Cycles/MapOrder.antt =====
-- detectCycles sorts the keys of each downstreamCalls map, which Go ranges over in any order.
use mathlib.Core.List.{Permᴰ}
use mathlib.Core.Path.{fun_ext, ap₂}
use otel_ecom_load_genrator.Prelude.{Alike}
use otel_ecom_load_genrator.Prelude.{
  ℕ, zero, suc, ◌≡◌, refl, sym, ap, ◌∙◌, inl, inr, Bool-cases, Option, none, some, List, [], ◌∷◌,
  ◌++◌, map, length,
}
use otel_ecom_load_genrator.Prelude.Text.{Text, text_eq}
use otel_ecom_load_genrator.Config.{
  Route, Service, File, find_service_in, find_service, find_route_in, find_route,
}
use otel_ecom_load_genrator.Config.Lookup.{keys, Distinct}
use otel_ecom_load_genrator.Validate.Verdict.{Node}
use otel_ecom_load_genrator.Config.Listing.{keys-Permᴰ, lookup-Permᴰ}
use otel_ecom_load_genrator.Validate.Cycles.Sorting.{sort_strings-Permᴰ}
use otel_ecom_load_genrator.Validate.Cycles.{
  sort_strings, call_target, call_nodes, callees, visit_all, visit, routes_of, known_in, known,
  root_nodes, fresh, detect_cycles,
}

module _ {F : Type 0} where
  -- The same route for detectCycles: its map of calls, in whatever order it is gone through.
  abbrev pub SameRoute : Route F → Route F → Type 0
  SameRoute r r' =
      (r.route ≡ r'.route)
      × Permᴰ r.downstream_calls r'.downstream_calls
      × Distinct (keys r.downstream_calls)

  abbrev pub SameService : Service F → Service F → Type 0
  SameService s s' = (s.service_name ≡ s'.service_name) × Alike SameRoute s.routes s'.routes

  abbrev pub FoundRoute : Option (Route F) → Option (Route F) → Type 0
  FoundRoute none none = Unit
  FoundRoute (some r) (some r') = SameRoute r r'
  FoundRoute _ _ = ⊥

  abbrev pub FoundService : Option (Service F) → Option (Service F) → Type 0
  FoundService none none = Unit
  FoundService (some s) (some s') = SameService s s'
  FoundService _ _ = ⊥

  pub find_route_in-same :
      (rs rs' : List (Route F)) (name : Text)
      → Alike SameRoute rs rs'
      → FoundRoute (find_route_in rs name) (find_route_in rs' name)
  unfolding find_route_in
  find_route_in-same [] [] name h = tt
  find_route_in-same (r ∷ rs) (r' ∷ rs') name h = elim (Bool-cases (text_eq r.route name)) [
    | inl e ↦ rw (e, ap (λ x. text_eq x name) (sym h.0.0) ∙ e) h.0
    | inr e ↦ rw (e, ap (λ x. text_eq x name) (sym h.0.0) ∙ e) (find_route_in-same rs rs' name h.1)
  ]
  find_route_in-same [] (r' ∷ rs') name h = absurd h
  find_route_in-same (r ∷ rs) [] name h = absurd h

  pub find_service_in-same :
      (ss ss' : List (Service F)) (name : Text)
      → Alike SameService ss ss'
      → FoundService (find_service_in ss name) (find_service_in ss' name)
  unfolding find_service_in
  find_service_in-same [] [] name h = tt
  find_service_in-same (s ∷ ss) (s' ∷ ss') name h =
      elim (Bool-cases (text_eq s.service_name name)) [
        | inl e ↦ rw (e, ap (λ x. text_eq x name) (sym h.0.0) ∙ e) h.0
        | inr e ↦
            rw (e, ap (λ x. text_eq x name) (sym h.0.0) ∙ e) (find_service_in-same ss ss' name h.1)
      ]
  find_service_in-same [] (s' ∷ ss') name h = absurd h
  find_service_in-same (s ∷ ss) [] name h = absurd h

call_nodes-Permᴰ :
    (calls calls' : List (Text × Text))
    → Permᴰ calls calls'
    → Distinct (keys calls)
    → call_nodes calls ≡ call_nodes calls'
unfolding call_nodes call_target
call_nodes-Permᴰ calls calls' d h =
    ap (λ (ks : List Text). map (λ k. record { service = k; route = call_target calls k }) ks)
      (sort_strings-Permᴰ (keys-Permᴰ d))
    ∙ ap (λ (g : Text → Node). map g (sort_strings (keys calls')))
        (fun_ext λ k. rw (call_target, lookup-Permᴰ k d h) refl)

module _ {F : Type 0} where
  call_nodes-found :
      (r r' : Option (Route F))
      → FoundRoute r r'
      → elim r [ none ↦ [] | some x ↦ call_nodes x.downstream_calls ]
        ≡ elim r' [ none ↦ [] | some x ↦ call_nodes x.downstream_calls ]
  call_nodes-found none none h = refl
  call_nodes-found (some r) (some r') h =
      call_nodes-Permᴰ r.downstream_calls r'.downstream_calls h.1 h.2
  call_nodes-found none (some r') h = absurd h
  call_nodes-found (some r) none h = absurd h

  callees-found :
      (s s' : Option (Service F)) (route : Text)
      → FoundService s s'
      → elim s [
        | none ↦ []
        | some x ↦ elim (find_route x route) [ none ↦ [] | some r ↦ call_nodes r.downstream_calls ]
      ]
        ≡ elim s' [
          | none ↦ []
          | some x ↦ elim (find_route x route) [
            | none ↦ []
            | some r ↦ call_nodes r.downstream_calls
          ]
        ]
  unfolding find_route
  callees-found none none route h = refl
  callees-found (some s) (some s') route h =
      call_nodes-found (find_route_in s.routes route) (find_route_in s'.routes route)
        (find_route_in-same s.routes s'.routes route h.1)
  callees-found none (some s') route h = absurd h
  callees-found (some s) none route h = absurd h

  nodes-same :
      (name : Text) (rs rs' : List (Route F))
      → Alike SameRoute rs rs'
      → map {B = Node} (λ (r : Route F). record { service = name; route = r.route }) rs
        ≡ map {B = Node} (λ (r : Route F). record { service = name; route = r.route }) rs'
  nodes-same name [] [] h = refl
  nodes-same name (r ∷ rs) (r' ∷ rs') h =
      ap₂ (λ (x : Text) (xs : List Node). record { service = name; route = x } ∷ xs) h.0.0
        (nodes-same name rs rs' h.1)
  nodes-same name [] (r' ∷ rs') h = absurd h
  nodes-same name (r ∷ rs) [] h = absurd h

  routes_of-same : (s s' : Service F) → SameService s s' → routes_of s ≡ routes_of s'
  unfolding routes_of
  routes_of-same s s' h =
      ap
        (λ (name : Text).
          map {B = Node} (λ (r : Route F). record { service = name; route = r.route }) s.routes)
        h.0
      ∙ nodes-same s'.service_name s.routes s'.routes h.1

  known_in-same :
      (ss ss' : List (Service F)) → Alike SameService ss ss' → known_in ss ≡ known_in ss'
  unfolding known_in
  known_in-same [] [] h = refl
  known_in-same (s ∷ ss) (s' ∷ ss') h =
      ap₂ (λ xs ys. xs ++ ys) (routes_of-same s s' h.0) (known_in-same ss ss' h.1)
  known_in-same [] (s' ∷ ss') h = absurd h
  known_in-same (s ∷ ss) [] h = absurd h

module _ {F : Type 0} (f f' : File F)
    (same : Alike SameService f.topology.services f'.topology.services) where
  callees-same : (n : Node) → callees f.topology n ≡ callees f'.topology n
  unfolding callees find_service
  callees-same n =
      callees-found (find_service_in f.topology.services n.service)
        (find_service_in f'.topology.services n.service) n.route
        (find_service_in-same f.topology.services f'.topology.services n.service same)

  visit-same : (fuel : ℕ) → visit f.topology fuel ≡ visit f'.topology fuel
  unfolding visit
  visit-same zero = fun_ext λ n. fun_ext λ w. refl
  visit-same (suc fuel) = fun_ext λ n. fun_ext λ w. rw (visit-same fuel, callees-same n) refl

  -- Two documents with the same root routes whose services and routes have the same names in the same
  -- order, and whose maps of calls hold the same pairs without a repeated key, make detectCycles end
  -- the same way: with the same cycle, if any, whatever the order in which the maps are listed.
  pub detect_cycles_any_order : f.root_routes ≡ f'.root_routes → detect_cycles f ≡ detect_cycles f'
  unfolding detect_cycles known
  detect_cycles_any_order roots =
      let declared = known_in-same f.topology.services f'.topology.services same in
      λ t. visit_all (visit-same (suc (length (declared t))) t) (root_nodes (roots t)) fresh
