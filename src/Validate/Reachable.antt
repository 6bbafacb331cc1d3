-- ===== src/Validate/Reachable.antt =====
-- internal/config/validate.go: unreachableServices and its closure `visit`. The maps `visited` and
-- `reached` are lists; the depth of the recursion is bounded by fuel.
use otel_ecom_load_genrator.Prelude.{
  ℕ, zero, suc, Bool, false, ◌||◌, Option, none, some, List, [], ◌∷◌, if◌then◌else◌, length,
}
use otel_ecom_load_genrator.Prelude.Text.{Text, contains}
use otel_ecom_load_genrator.Config.{Service, Topology, File, find_service, find_route}
use otel_ecom_load_genrator.Validate.Verdict.{Node, Warning, unreachable_service}
use otel_ecom_load_genrator.Validate.Cycles.{node_eq, known, root_nodes}

pub record Reached : Type 0 where
  pub visited : List Node
  pub services : List Text

unfoldable pub has_node : Node → List Node → Bool
unfolding node_eq
has_node n [] = false
has_node n (x ∷ xs) = node_eq x n || has_node n xs

unfoldable pub add_node : Node → Reached → Reached
add_node n r = record { visited = n ∷ r.visited; services = n.service ∷ r.services }

-- `range r.DownstreamCalls`
unfoldable pub pair_nodes : List (Text × Text) → List Node
pair_nodes [] = []
pair_nodes ((service, route) ∷ rest) = record { service = service; route = route } ∷ pair_nodes rest

module _ {F : Type 0} where
  unfoldable pub called_nodes : Topology F → Node → List Node
  unfolding find_service find_route pair_nodes
  called_nodes t n = elim (find_service t n.service) [
    | none ↦ []
    | some svc ↦ elim (find_route svc n.route) [
      | none ↦ []
      | some r ↦ pair_nodes r.downstream_calls
    ]
  ]

-- `none` stands for fuel that ran out.
unfoldable pub reach_all : (Node → Reached → Option Reached) → List Node → Reached → Option Reached
reach_all go [] r = some r
reach_all go (n ∷ ns) r = elim (go n r) [ none ↦ none | some r' ↦ reach_all go ns r' ]

unfoldable pub reach_step :
    (Node → Reached → Option Reached) → List Node → Node → Reached → Option Reached
unfolding has_node add_node reach_all
reach_step go next n r = if has_node n r.visited then some r else reach_all go next (add_node n r)

module _ {F : Type 0} where
  unfoldable pub reach : Topology F → ℕ → Node → Reached → Option Reached
  unfolding reach_step called_nodes
  reach t zero n r = none
  reach t (suc fuel) n r = reach_step (reach t fuel) (called_nodes t n) n r

  unfoldable pub reached_from_roots : File F → Option Reached
  unfolding reach known root_nodes
  reached_from_roots f =
      reach_all (reach f.topology (suc (length (known f.topology)))) (root_nodes f.root_routes)
        (record { visited = []; services = [] })

  unfoldable pub not_reached : List Text → List (Service F) → List Warning
  unfolding contains
  not_reached services [] = []
  not_reached services (s ∷ ss) =
      if contains s.service_name services
      then not_reached services ss
      else unreachable_service s.service_name ∷ not_reached services ss

  unfoldable pub unreachable_services : File F → Option (List Warning)
  unfolding reached_from_roots not_reached
  unreachable_services f = elim (reached_from_roots f) [
    | none ↦ none
    | some r ↦ some (not_reached r.services f.topology.services)
  ]
