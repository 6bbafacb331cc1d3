-- ===== src/Validate/Cycles/Graph.antt =====
-- The call graph of a topology, as a relation: walks, and the nodes from which no call chain is
-- endless. Stated without the search of detectCycles.
use otel_ecom_load_genrator.Prelude.{
  ◌≡◌, ◌⊎◌, inl, inr, some, refl, sym, true, List, [], ◌∷◌, arith, Mem, subst, Option-cases, map,
  mem-append_left, mem-append_right, Bool-cases, mem-map,
}
use otel_ecom_load_genrator.Prelude.Text.{Text, text_eq, text_eq_iff}
use otel_ecom_load_genrator.Config.{Topology, Service, Route, lookup, find_service, find_route}
use otel_ecom_load_genrator.Config.Lookup.{
  keys, lookup-mem, mem-keys, find_service-mem, find_route-mem,
}
use otel_ecom_load_genrator.Validate.Verdict.{Node}
use otel_ecom_load_genrator.Validate.Cycles.{
  node_eq, insert_sorted, sort_strings, call_target, call_nodes, callees, routes_of, known_in,
  known, Mark, unvisited, on_stack, done, Walk, Outcome, finished, found, enter, leave, visit_all,
  step,
}

-- `m` is declared, and its route calls `n`: downstreamCalls[n.service] == n.route.
pub record Calls {F : Type 0} (t : Topology F) (m n : Node) : Type 0 where
  pub svc : Service F
  pub route : Route F
  pub found_service : find_service t m.service ≡ some svc
  pub found_route : find_route svc m.route ≡ some route
  pub target : lookup n.service route.downstream_calls ≡ some n.route

-- No call chain from `n` goes on for ever.
pub data Terminates {F : Type 0} (t : Topology F) : Node → Type 0 where
  ends : (n : Node) → ((m : Node) → Calls t n m → Terminates t m) → Terminates t n

abbrev pub IsWalk : {F : Type 0} → Topology F → List Node → Type 0
IsWalk t [] = Unit
IsWalk t (x ∷ []) = Unit
IsWalk t (x ∷ y ∷ rest) = Calls t x y × IsWalk t (y ∷ rest)

abbrev pub StartsIn : List Node → List Node → Type 0
StartsIn roots [] = ⊥
StartsIn roots (x ∷ _) = Mem x roots

pub node_eq_iff_to : (a b : Node) → node_eq a b ≡ true → a ≡ b
unfolding node_eq
node_eq_iff_to a b h = ground (arith, text_eq_iff a.service b.service, text_eq_iff a.route b.route)

pub node_eq_refl : (a : Node) → node_eq a a ≡ true
unfolding node_eq
node_eq_refl a = ground (arith, text_eq_iff a.service a.service, text_eq_iff a.route a.route)

mem-insert_sorted : (a k : Text) (xs : List Text) → Mem a (k ∷ xs) → Mem a (insert_sorted k xs)
unfolding insert_sorted
mem-insert_sorted a k [] h = h
mem-insert_sorted a k (x ∷ xs) h = ground (arith, mem-insert_sorted a k xs)

mem-insert_sorted_inv : (a k : Text) (xs : List Text) → Mem a (insert_sorted k xs) → Mem a (k ∷ xs)
unfolding insert_sorted
mem-insert_sorted_inv a k [] h = h
mem-insert_sorted_inv a k (x ∷ xs) h = ground (arith, mem-insert_sorted_inv a k xs)

mem-sort_strings : (a : Text) (xs : List Text) → Mem a xs → Mem a (sort_strings xs)
unfolding sort_strings
mem-sort_strings a [] h = h
mem-sort_strings a (x ∷ xs) h =
    ground (arith, mem-insert_sorted a x (sort_strings xs), mem-sort_strings a xs)

mem-sort_strings_inv : (a : Text) (xs : List Text) → Mem a (sort_strings xs) → Mem a xs
unfolding sort_strings
mem-sort_strings_inv a [] h = h
mem-sort_strings_inv a (x ∷ xs) h =
    ground (arith, mem-insert_sorted_inv a x (sort_strings xs), mem-sort_strings_inv a xs)

call_target_of :
    (calls : List (Text × Text)) (n : Node)
    → lookup n.service calls ≡ some n.route
    → record { service = n.service; route = call_target calls n.service } ≡ n
unfolding call_target
call_target_of calls n h = ground arith

mem-call_nodes :
    (calls : List (Text × Text)) (n : Node)
    → lookup n.service calls ≡ some n.route
    → Mem n (call_nodes calls)
unfolding call_nodes
mem-call_nodes calls n h =
    subst (λ x. Mem x (call_nodes calls)) (call_target_of calls n h)
      (mem-map (λ k. record { service = k; route = call_target calls k }) n.service _
        (mem-sort_strings _ _ (mem-keys _ _ calls (lookup-mem n.service calls h))))

lookup_of_mem-keys :
    (k : Text) (calls : List (Text × Text))
    → Mem k (keys calls)
    → (v : Text) × (lookup k calls ≡ some v)
unfolding lookup
lookup_of_mem-keys k [] m = absurd m
lookup_of_mem-keys k ((j, w) ∷ calls) m = elim (Bool-cases (text_eq j k)) [
  | inl e ↦ (w, ground arith)
  | inr e ↦
      let later : Mem k (keys calls) = ground (arith, text_eq_iff j k) in
      let (v, h) = lookup_of_mem-keys k calls later in (v, ground arith)
]

lookup_of_mem-call_nodes :
    (calls : List (Text × Text)) (ks : List Text) (n : Node)
    → ((k : Text) → Mem k ks → Mem k (keys calls))
    → Mem n (map (λ k. record { service = k; route = call_target calls k }) ks)
    → lookup n.service calls ≡ some n.route
unfolding call_target
lookup_of_mem-call_nodes calls [] n sub m = absurd m
lookup_of_mem-call_nodes calls (k ∷ ks) n sub (inl e) =
    let (v, h) = lookup_of_mem-keys k calls (sub k (inl refl)) in ground arith
lookup_of_mem-call_nodes calls (k ∷ ks) n sub (inr m) =
    lookup_of_mem-call_nodes calls ks n (λ j h. sub j (inr h)) m

module _ {F : Type 0} (t : Topology F) where
  callees_of :
      (m : Node) (s : Service F) (r : Route F)
      → find_service t m.service ≡ some s
      → find_route s m.route ≡ some r
      → callees t m ≡ call_nodes r.downstream_calls
  unfolding callees
  callees_of m s r hs hr = ground arith

  -- The nodes that `visit` goes on to are those that the route calls.
  pub mem-callees : (m n : Node) → Calls t m n → Mem n (callees t m)
  mem-callees m n c =
      subst (Mem n) (sym (callees_of m c.svc c.route c.found_service c.found_route))
        (mem-call_nodes c.route.downstream_calls n c.target)

  callees-cases :
      (m : Node)
      → (callees t m ≡ [])
        ⊎ ((s : Service F) × (r : Route F) × (find_service t m.service ≡ some s)
            × (find_route s m.route ≡ some r))
  unfolding callees
  callees-cases m = elim (Option-cases (find_service t m.service)) [
    | inl e ↦ inl (ground arith)
    | inr (s, e) ↦ elim (Option-cases (find_route s m.route)) [
      | inl e' ↦ inl (ground arith)
      | inr (r, e') ↦ inr (s, r, e, e')
    ]
  ]

  pub Calls-of_mem-callees : (m n : Node) → Mem n (callees t m) → Calls t m n
  unfolding call_nodes
  Calls-of_mem-callees m n h = elim (callees-cases m) [
    | inl e ↦ absurd (subst (Mem n) e h)
    | inr (s, r, hs, hr) ↦ record {
      svc = s;
      route = r;
      found_service = hs;
      found_route = hr;
      target =
          lookup_of_mem-call_nodes r.downstream_calls (sort_strings (keys r.downstream_calls)) n
            (λ k. mem-sort_strings_inv k (keys r.downstream_calls))
            (subst (Mem n) (callees_of m s r hs hr) h);
    }
  ]

  mem-known_in :
      (ss : List (Service F)) (s : Service F) (n : Node)
      → Mem s ss
      → Mem n (routes_of s)
      → Mem n (known_in ss)
  unfolding known_in
  mem-known_in [] s n hs hn = absurd hs
  mem-known_in (x ∷ xs) s n (inl e) hn =
      mem-append_left n (routes_of x) (known_in xs) (subst (λ y. Mem n (routes_of y)) e hn)
  mem-known_in (x ∷ xs) s n (inr m) hn =
      mem-append_right n (routes_of x) (known_in xs) (mem-known_in xs s n m hn)

  pub found-known :
      (m : Node) (s : Service F) (r : Route F)
      → find_service t m.service ≡ some s
      → find_route s m.route ≡ some r
      → Mem m (known t)
  unfolding known routes_of
  found-known m s r hs hr =
      let (ms, es) = find_service-mem t m.service s hs in
      let (mr, er) = find_route-mem s m.route r hr in
      let same : record { service = s.service_name; route = r.route } ≡ m =
        λ i. record { service = es i; route = er i } in
      subst (λ x. Mem x (known t)) same
        (mem-known_in t.services s _ ms (
          mem-map (λ (x : Route F). record { service = s.service_name; route = x.route }) r s.routes
            mr))

  -- A node with callees is declared.
  pub callees-known : (m : Node) → (callees t m ≡ []) ⊎ Mem m (known t)
  callees-known m = elim (callees-cases m) [
    | inl e ↦ inl e
    | inr (s, r, hs, hr) ↦ inr (found-known m s r hs hr)
  ]

pub visit_all-nil : (go : Node → Walk → Outcome) (w : Walk) → visit_all go [] w ≡ finished w
unfolding visit_all
visit_all-nil go w = refl

Mark-cases : (m : Mark) → (m ≡ unvisited) ⊎ ((m ≡ on_stack) ⊎ (m ≡ done))
Mark-cases unvisited = inl refl
Mark-cases on_stack = inr (inl refl)
Mark-cases done = inr (inr refl)

-- A rule for one call of `visit`: what holds in each case of its switch holds of the call.
pub step_rule {ℓ} :
    (P : Outcome → Type ℓ) (go : Node → Walk → Outcome) (next : List Node) (n : Node) (w : Walk)
    → (w.state n ≡ unvisited → P (leave n (visit_all go next (enter n w))))
    → (w.state n ≡ on_stack → P (found w.stack n))
    → (w.state n ≡ done → P (finished w))
    → P (step go next n w)
unfolding step
step_rule P go next n w new repeated old = elim (Mark-cases (w.state n)) [
  | inl e ↦ rw (e, step) (new e)
  | inr (inl e) ↦ rw (e, step) (repeated e)
  | inr (inr e) ↦ rw (e, step) (old e)
]
