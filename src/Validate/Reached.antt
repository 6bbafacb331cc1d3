-- ===== src/Validate/Reached.antt =====
-- Reachability from the root routes as a relation, and what the walk of unreachableServices visits.
use otel_ecom_load_genrator.Prelude.{
  ◌≡◌, ◌⊎◌, inl, inr, refl, sym, subst, true, ap, Option, none, some, List, [], ◌∷◌, suc, ℕ, zero,
  arith, Mem, Option-cases, Bool-cases,
}
use mathlib.Core.Option.{some-injective}
use otel_ecom_load_genrator.Prelude.Text.{Text}
use otel_ecom_load_genrator.Config.{Topology, Service, Route, find_service, find_route}
use otel_ecom_load_genrator.Validate.Verdict.{Node}
use otel_ecom_load_genrator.Validate.Cycles.Graph.{node_eq_iff_to}
use otel_ecom_load_genrator.Validate.Reachable.{
  Reached, has_node, add_node, pair_nodes, called_nodes, reach_all, reach_step, reach,
}

pub mem-pair_nodes :
    (calls : List (Text × Text)) (m : Node)
    → Mem m (pair_nodes calls)
    → Mem (m.service, m.route) calls
unfolding pair_nodes
mem-pair_nodes [] m h = absurd h
mem-pair_nodes ((service, route) ∷ calls) m (inl e) = inl (λ i. ((e i).service, (e i).route))
mem-pair_nodes ((service, route) ∷ calls) m (inr h) = inr (mem-pair_nodes calls m h)

pub mem-has_node : (n : Node) (xs : List Node) → has_node n xs ≡ true → Mem n xs
unfolding has_node
mem-has_node n [] h = cc
mem-has_node n (x ∷ xs) h = ground (arith, node_eq_iff_to x n, mem-has_node n xs)

mem-pair_nodes_of :
    (calls : List (Text × Text)) (m : Node)
    → Mem (m.service, m.route) calls
    → Mem m (pair_nodes calls)
unfolding pair_nodes
mem-pair_nodes_of [] m h = absurd h
mem-pair_nodes_of ((service, route) ∷ calls) m (inl e) =
    inl (λ i. record { service = (e i).0; route = (e i).1 })
mem-pair_nodes_of ((service, route) ∷ calls) m (inr h) = inr (mem-pair_nodes_of calls m h)

-- `m` is declared, and (n.service, n.route) is an entry of its route's downstreamCalls.
pub record HasCall {F : Type 0} (t : Topology F) (m n : Node) : Type 0 where
  pub svc : Service F
  pub route : Route F
  pub found_service : find_service t m.service ≡ some svc
  pub found_route : find_route svc m.route ≡ some route
  pub entry : Mem (n.service, n.route) route.downstream_calls

-- Some chain of calls from a root leads to the node.
pub data IsReached {F : Type 0} (t : Topology F) (roots : List Node) : Node → Type 0 where
  root : (n : Node) → Mem n roots → IsReached t roots n
  call : (m n : Node) → IsReached t roots m → HasCall t m n → IsReached t roots n

module _ {F : Type 0} (t : Topology F) where
  HasCall-called_nodes : (m n : Node) → Mem n (called_nodes t m) → HasCall t m n
  unfolding called_nodes
  HasCall-called_nodes m n h = elim (Option-cases (find_service t m.service)) [
    | inl e ↦ absurd (subst (Mem n) (none_called e) h)
    | inr (s, e) ↦ elim (Option-cases (find_route s m.route)) [
      | inl e' ↦ absurd (subst (Mem n) (none_called' s e e') h)
      | inr (r, e') ↦ record {
        svc = s;
        route = r;
        found_service = e;
        found_route = e';
        entry = mem-pair_nodes r.downstream_calls n (subst (Mem n) (called s r e e') h);
      }
    ]
  ]
    where
      none_called : find_service t m.service ≡ none → called_nodes t m ≡ []
      none_called e = ground arith

      none_called' :
          (s : Service F)
          → find_service t m.service ≡ some s
          → find_route s m.route ≡ none
          → called_nodes t m ≡ []
      none_called' s e e' = ground arith

      called :
          (s : Service F) (r : Route F)
          → find_service t m.service ≡ some s
          → find_route s m.route ≡ some r
          → called_nodes t m ≡ pair_nodes r.downstream_calls
      called s r e e' = ground arith

  called_nodes-HasCall : (m n : Node) → HasCall t m n → Mem n (called_nodes t m)
  unfolding called_nodes
  called_nodes-HasCall m n c =
      subst (Mem n) (sym called) (mem-pair_nodes_of c.route.downstream_calls n c.entry)
    where
      called : called_nodes t m ≡ pair_nodes c.route.downstream_calls
      called = let e = c.found_service in let e' = c.found_route in ground arith

  module _ (roots : List Node) where
    pub record Sound (r : Reached) : Type 0 where
      pub real : (x : Node) → Mem x r.visited → IsReached t roots x
      pub named : (x : Node) → Mem x r.visited → Mem x.service r.services
      pub backed :
          (name : Text) → Mem name r.services → (x : Node) × Mem x r.visited × (x.service ≡ name)

    -- What the visits of `ns` do: every newly visited node has its callees visited.
    pub record Visits (ns : List Node) (r r' : Reached) : Type 0 where
      pub sound : Sound r'
      pub keeps : (x : Node) → Mem x r.visited → Mem x r'.visited
      pub closed :
          (x : Node)
          → Mem x r'.visited
          → Mem x r.visited ⊎ ((m : Node) → Mem m (called_nodes t x) → Mem m r'.visited)
      pub visits : (x : Node) → Mem x ns → Mem x r'.visited

    abbrev pub Visiting : (Node → Reached → Option Reached) → Type 0
    Visiting go =
        (n : Node) (r r' : Reached)
        → Sound r
        → IsReached t roots n
        → go n r ≡ some r'
        → Visits (n ∷ []) r r'

    Visits-none :
        (ns : List Node) (r : Reached)
        → Sound r
        → ((x : Node) → Mem x ns → Mem x r.visited)
        → Visits ns r r
    Visits-none ns r s h = record { sound = s; keeps = λ x m. m; closed = λ x m. inl m; visits = h }

    Visits-cons :
        (n : Node) (ns : List Node) (r r1 r2 : Reached)
        → Visits (n ∷ []) r r1
        → Visits ns r1 r2
        → Visits (n ∷ ns) r r2
    Visits-cons n ns r r1 r2 a b = record {
      sound = b.sound;
      keeps = λ x m. b.keeps x (a.keeps x m);
      closed = λ x m. elim (b.closed x m) [
        | inl early ↦ elim (a.closed x early) [
          | inl old ↦ inl old
          | inr all ↦ inr (λ y k. b.keeps y (all y k))
        ]
        | inr all ↦ inr all
      ];
      visits =
          λ x m. elim m [ inl e ↦ b.keeps x (a.visits x (inl e)) | inr later ↦ b.visits x later ];
    }

    pub reach_all-Visits :
        (go : Node → Reached → Option Reached)
        → Visiting go
        → (ns : List Node) (r r' : Reached) → Sound r
        → ((m : Node) → Mem m ns → IsReached t roots m)
        → reach_all go ns r ≡ some r'
        → Visits ns r r'
    unfolding reach_all
    reach_all-Visits go each [] r r' s real e =
        subst (Visits [] r) (some-injective _ _ e) (Visits-none [] r s (λ x h. absurd h))
    reach_all-Visits go each (n ∷ ns) r r' s real e = elim (Option-cases (go n r)) [
      | inl e1 ↦ ground arith
      | inr (r1, e1) ↦
          let first = each n r r1 s (real n (inl refl)) e1 in
          let rest : reach_all go ns r1 ≡ some r' = ground arith in
          Visits-cons n ns r r1 r' first
            (reach_all-Visits go each ns r1 r' first.sound (λ m h. real m (inr h)) rest)
    ]

    Sound-add_node : (n : Node) (r : Reached) → Sound r → IsReached t roots n → Sound (add_node n r)
    unfolding add_node
    Sound-add_node n r s real = record {
      real =
          λ x m. elim m [ inl e ↦ subst (IsReached t roots) (sym e) real | inr old ↦ s.real x old ];
      named = λ x m. elim m [
        | inl e ↦ inl (ap (λ (y : Node). y.service) e)
        | inr old ↦ inr (s.named x old)
      ];
      backed = λ name m. elim m [
        | inl e ↦ (n, inl refl, sym e)
        | inr old ↦ let (x, k, e) = s.backed name old in (x, inr k, e)
      ];
    }

    -- A node's own visit, from the visits of its callees.
    Visits-own :
        (n : Node) (r r' : Reached)
        → Visits (called_nodes t n) (add_node n r) r'
        → Visits (n ∷ []) r r'
    unfolding add_node
    Visits-own n r r' v = record {
      sound = v.sound;
      keeps = λ x m. v.keeps x (inr m);
      closed = λ x m. elim (v.closed x m) [
        | inl (inl e) ↦ inr (λ y k. v.visits y (subst (λ z. Mem y (called_nodes t z)) e k))
        | inl (inr old) ↦ inl old
        | inr all ↦ inr all
      ];
      visits = λ x m. elim m [ inl e ↦ v.keeps x (inl e) | inr wrong ↦ absurd wrong ];
    }

    pub reach-Visits : (fuel : ℕ) → Visiting (reach t fuel)
    unfolding reach reach_step
    reach-Visits zero n r r' s real e = cc
    reach-Visits (suc fuel) n r r' s real e = elim (Bool-cases (has_node n r.visited)) [
      | inl old ↦
          let same : r ≡ r' = ground (arith, some-injective r r') in
          subst (Visits (n ∷ []) r) same (
            Visits-none (n ∷ []) r s (λ x m. elim m [
              | inl e' ↦ subst (λ y. Mem y r.visited) (sym e') (mem-has_node n r.visited old)
              | inr wrong ↦ absurd wrong
            ]))
      | inr new ↦
          let below : reach_all (reach t fuel) (called_nodes t n) (add_node n r) ≡ some r' =
            ground arith in
          Visits-own n r r' (
            reach_all-Visits (reach t fuel) (reach-Visits fuel) (called_nodes t n) (add_node n r) r'
              (Sound-add_node n r s real) (λ m h. call n m real (HasCall-called_nodes n m h)) below)
    ]

    pub IsReached-visited :
        (r : Reached)
        → Visits roots (record { visited = []; services = [] }) r
        → (n : Node) → IsReached t roots n
        → Mem n r.visited
    IsReached-visited r v n (root _ h) = v.visits n h
    IsReached-visited r v n (call m _ h c) = elim (v.closed m (IsReached-visited r v m h)) [
      | inl wrong ↦ absurd wrong
      | inr all ↦ all n (called_nodes-HasCall m n c)
    ]
