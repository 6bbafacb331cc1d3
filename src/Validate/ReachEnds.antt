-- ===== src/Validate/ReachEnds.antt =====
-- The recursion of unreachableServices ends: the fuel, one more than the declared nodes, suffices.
use otel_ecom_load_genrator.Prelude.{
  ℕ, zero, suc, ◌≤◌, ◌<◌, ◌≡◌, ◌≢◌, ◌⊎◌, inl, inr, sym, false, Option, none, some, List, [], ◌∷◌,
  arith, Mem, subst, if◌then◌else◌, length, Bool-cases, Option-cases,
}
use otel_ecom_load_genrator.Config.{Topology, File, find_service, find_route}
use otel_ecom_load_genrator.Validate.Verdict.{Node}
use otel_ecom_load_genrator.Validate.Cycles.{known, root_nodes}
use otel_ecom_load_genrator.Validate.Cycles.Graph.{node_eq_iff_to, node_eq_refl, found-known}
use otel_ecom_load_genrator.Validate.Reachable.{
  Reached, has_node, add_node, called_nodes, reach_all, reach_step, reach, reached_from_roots,
  unreachable_services,
}

pub unseen_count : List Node → List Node → ℕ
unseen_count visited [] = 0
unseen_count visited (n ∷ ns) =
    if has_node n visited then unseen_count visited ns else suc (unseen_count visited ns)

pub unseen_count-le : (visited ns : List Node) → unseen_count visited ns ≤ length ns
unfolding unseen_count
unseen_count-le visited [] = omega arith
unseen_count-le visited (n ∷ ns) = ground (arith, unseen_count-le visited ns)

module _ (n : Node) (visited : List Node) where
  unseen_count-cons_le : (ns : List Node) → unseen_count (n ∷ visited) ns ≤ unseen_count visited ns
  unfolding unseen_count has_node
  unseen_count-cons_le [] = omega arith
  unseen_count-cons_le (x ∷ ns) = ground (arith, unseen_count-cons_le ns)

  pub unseen_count-cons_lt :
      (ns : List Node)
      → Mem n ns
      → has_node n visited ≡ false
      → unseen_count (n ∷ visited) ns < unseen_count visited ns
  unfolding unseen_count has_node
  unseen_count-cons_lt [] h e = absurd h
  unseen_count-cons_lt (x ∷ ns) h e =
      ground (
        arith,
        unseen_count-cons_lt ns,
        unseen_count-cons_le ns,
        node_eq_iff_to n x,
        node_eq_refl n,
      )

module _ (ns : List Node) where
  abbrev Returns : ℕ → Option Reached → Type 0
  Returns limit none = ⊥
  Returns limit (some r) = unseen_count r.visited ns < limit

  reach_all-Returns :
      (go : Node → Reached → Option Reached) (limit : ℕ)
      → ((n : Node) (r : Reached) → unseen_count r.visited ns < limit → Returns limit (go n r))
      → (next : List Node) (r : Reached) → unseen_count r.visited ns < limit
      → Returns limit (reach_all go next r)
  unfolding reach_all
  reach_all-Returns go limit each [] r h = h
  reach_all-Returns go limit each (n ∷ next) r h = elim (Option-cases (go n r)) [
    | inl e ↦ absurd (subst (Returns limit) e (each n r h))
    | inr (r', e) ↦
        rw (e, reach_all)
          (reach_all-Returns go limit each next r' (subst (Returns limit) e (each n r h)))
  ]

  Returns-mono : (a b : ℕ) (o : Option Reached) → a ≤ b → Returns a o → Returns b o
  Returns-mono a b none le h = h
  Returns-mono a b (some r) le h = omega arith

module _ {F : Type 0} (t : Topology F) where
  called_nodes-known : (m : Node) → (called_nodes t m ≡ []) ⊎ Mem m (known t)
  unfolding called_nodes
  called_nodes-known m = elim (Option-cases (find_service t m.service)) [
    | inl e ↦ inl (ground arith)
    | inr (s, e) ↦ elim (Option-cases (find_route s m.route)) [
      | inl e' ↦ inl (ground arith)
      | inr (r, e') ↦ inr (found-known t m s r e e')
    ]
  ]

  descend-Returns :
      (fuel : ℕ)
      → ((n : Node) (r : Reached)
          → unseen_count r.visited (known t) < fuel
          → Returns (known t) fuel (reach t fuel n r))
      → (n : Node) (r : Reached) → has_node n r.visited ≡ false
      → unseen_count r.visited (known t) < suc fuel
      → Returns (known t) (suc fuel) (reach_all (reach t fuel) (called_nodes t n) (add_node n r))
  unfolding add_node reach_all
  descend-Returns fuel each n r e h = elim (called_nodes-known n) [
    | inl none_called ↦
        subst (λ next. Returns (known t) (suc fuel) (reach_all (reach t fuel) next (add_node n r)))
          (sym none_called) (omega (arith, unseen_count-cons_le n r.visited (known t)))
    | inr declared ↦ Returns-mono (known t) fuel (suc fuel) _ (omega arith) (
        reach_all-Returns (known t) (reach t fuel) fuel each (called_nodes t n) (add_node n r)
          (omega (arith, unseen_count-cons_lt n r.visited (known t) declared e)))
  ]

  reach-Returns :
      (fuel : ℕ) (n : Node) (r : Reached)
      → unseen_count r.visited (known t) < fuel
      → Returns (known t) fuel (reach t fuel n r)
  unfolding reach reach_step
  reach-Returns zero n r h = absurd (omega arith)
  reach-Returns (suc fuel) n r h = elim (Bool-cases (has_node n r.visited)) [
    | inl e ↦ rw e h
    | inr e ↦ rw e (descend-Returns fuel (reach-Returns fuel) n r e h)
  ]

pub reached_from_roots_returns :
    {F : Type 0} (f : File F) → (r : Reached) × (reached_from_roots f ≡ some r)
unfolding reached_from_roots
reached_from_roots_returns f =
    let t = f.topology in
    let fuel = suc (length (known t)) in
    let start : Reached = record { visited = []; services = [] } in
    let o = reach_all (reach t fuel) (root_nodes f.root_routes) start in
    let returns =
      reach_all-Returns (known t) (reach t fuel) fuel (reach-Returns t fuel)
        (root_nodes f.root_routes) start (omega (arith, unseen_count-le [] (known t))) in
    elim (Option-cases o) [
      | inl e ↦ absurd (subst (Returns (known t) fuel) e returns)
      | inr (r, e) ↦ (r, e)
    ]

-- unreachableServices always returns.
pub unreachable_services_returns : {F : Type 0} (f : File F) → unreachable_services f ≢ none
unfolding unreachable_services
unreachable_services_returns f e = let (r, e') = reached_from_roots_returns f in ground arith
