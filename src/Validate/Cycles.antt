-- ===== src/Validate/Cycles.antt =====
-- internal/config/validate.go: detectCycles, its closure `visit`, and formatCycle.
-- The closure's map `state` is a function. The depth of the recursion is bounded by fuel: each
-- call for a node that has callees first marks a node of `known` that was unvisited.
pub mod Graph
pub mod Ends
pub mod Acyclic
pub mod Genuine
pub mod Decides
pub mod Sorting
pub mod MapOrder
use otel_ecom_load_genrator.Prelude.{
  ℕ, zero, suc, Bool, ◌&&◌, Option, none, some, List, [], ◌∷◌, ◌++◌, map, if◌then◌else◌, length,
}
use otel_ecom_load_genrator.Prelude.Text.{Text, bytes, text_eq, text_leb}
use otel_ecom_load_genrator.Config.{
  Route, Service, Topology, RootRoute, File, lookup, find_service, find_route,
}
use otel_ecom_load_genrator.Config.Lookup.{keys}
use otel_ecom_load_genrator.Validate.Verdict.{Node, cycle, out_of_fuel, Report, pass, fail}

unfoldable pub node_eq : Node → Node → Bool
unfolding text_eq
node_eq a b = text_eq a.service b.service && text_eq a.route b.route

-- sort.Strings, by insertion: the sorted list is the same whatever the algorithm.
unfoldable pub insert_sorted : Text → List Text → List Text
unfolding text_leb
insert_sorted k [] = k ∷ []
insert_sorted k (x ∷ xs) = if text_leb k x then k ∷ x ∷ xs else x ∷ insert_sorted k xs

unfoldable pub sort_strings : List Text → List Text
unfolding insert_sorted
sort_strings [] = []
sort_strings (x ∷ xs) = insert_sorted x (sort_strings xs)

-- r.DownstreamCalls[k]; a missing key reads as "".
unfoldable pub call_target : List (Text × Text) → Text → Text
unfolding lookup
call_target calls k = elim (lookup k calls) [ none ↦ [] | some route ↦ route ]

unfoldable pub call_nodes : List (Text × Text) → List Node
unfolding sort_strings call_target
call_nodes calls =
    map (λ k. record { service = k; route = call_target calls k }) (sort_strings (keys calls))

-- The nodes that the inner loop of `visit` goes on to, in its order.
module _ {F : Type 0} where
  unfoldable pub callees : Topology F → Node → List Node
  unfolding find_service find_route call_nodes
  callees t n = elim (find_service t n.service) [
    | none ↦ []
    | some svc ↦ elim (find_route svc n.route) [
      | none ↦ []
      | some r ↦ call_nodes r.downstream_calls
    ]
  ]

pub data Mark : Type 0 where
  unvisited on_stack done : Mark

pub record Walk : Type 0 where
  pub state : Node → Mark
  pub stack : List Node

pub data Outcome : Type 0 where
  finished : Walk → Outcome
  -- The stack and the node that repeats, from which the message is rendered.
  found : List Node → Node → Outcome
  spent : Outcome

unfoldable pub set_mark : (Node → Mark) → Node → Mark → Node → Mark
unfolding node_eq
set_mark state n m x = if node_eq n x then m else state x

-- stack[:len(stack)-1]
unfoldable pub pop : {A : Type 0} → List A → List A
pop [] = []
pop (x ∷ []) = []
pop (x ∷ y ∷ ys) = x ∷ pop (y ∷ ys)

unfoldable pub enter : Node → Walk → Walk
unfolding set_mark
enter n w = record { state = set_mark w.state n on_stack; stack = w.stack ++ n ∷ [] }

unfoldable pub leave : Node → Outcome → Outcome
unfolding set_mark pop
leave n (finished w) = finished (record { state = set_mark w.state n done; stack = pop w.stack })
leave n (found stack repeat) = found stack repeat
leave n spent = spent

-- `if err := visit(...); err != nil { return err }`
abbrev pub and_then : Outcome → (Walk → Outcome) → Outcome
and_then (finished w) k = k w
and_then (found stack repeat) k = found stack repeat
and_then spent k = spent

-- A loop of calls of `visit`, which the first error ends.
unfoldable pub visit_all : (Node → Walk → Outcome) → List Node → Walk → Outcome
visit_all go [] w = finished w
visit_all go (n ∷ ns) w = and_then (go n w) (visit_all go ns)

unfoldable pub step : (Node → Walk → Outcome) → List Node → Node → Walk → Outcome
unfolding visit_all enter leave
step go next n w = elim (w.state n) [
  | unvisited ↦ leave n (visit_all go next (enter n w))
  | on_stack ↦ found w.stack n
  | done ↦ finished w
]

module _ {F : Type 0} where
  unfoldable pub visit : Topology F → ℕ → Node → Walk → Outcome
  unfolding step callees
  visit t zero n w = spent
  visit t (suc fuel) n w = step (visit t fuel) (callees t n) n w

  unfoldable pub routes_of : Service F → List Node
  routes_of s = map (λ (r : Route F). record { service = s.service_name; route = r.route }) s.routes

  unfoldable pub known_in : List (Service F) → List Node
  unfolding routes_of
  known_in [] = []
  known_in (s ∷ ss) = routes_of s ++ known_in ss

  -- Every (service, route) pair that the document declares.
  unfoldable pub known : Topology F → List Node
  unfolding known_in
  known t = known_in t.services

unfoldable pub root_nodes : List RootRoute → List Node
root_nodes roots = map (λ (rr : RootRoute). record { service = rr.service; route = rr.route }) roots

abbrev pub fresh : Walk
fresh = record { state = λ _. unvisited; stack = [] }

module _ {F : Type 0} where
  unfoldable pub detect_cycles : File F → Outcome
  unfolding visit known root_nodes
  detect_cycles f =
      visit_all (visit f.topology (suc (length (known f.topology)))) (root_nodes f.root_routes)
        fresh

unfoldable pub report_cycle : Outcome → Report
report_cycle (finished _) = pass
report_cycle (found stack repeat) = fail (cycle stack repeat)
report_cycle spent = fail out_of_fuel

-- stack[start:], with start the first index of the repeated node, or 0 where there is none.
unfoldable pub from_first : List Node → Node → Option (List Node)
unfolding node_eq
from_first [] n = none
from_first (x ∷ xs) n = if node_eq x n then some (x ∷ xs) else from_first xs n

unfoldable pub cycle_of : List Node → Node → List Node
unfolding from_first
cycle_of stack n = elim (from_first stack n) [ none ↦ stack | some rest ↦ rest ]

unfoldable pub format_node : Node → Text
format_node n = n.service ++ (bytes ":" ++ n.route)

unfoldable pub format_nodes : List Node → Text
unfolding format_node
format_nodes [] = []
format_nodes (n ∷ ns) = format_node n ++ (bytes " -> " ++ format_nodes ns)

unfoldable pub format_cycle : List Node → Node → Text
unfolding cycle_of format_nodes
format_cycle stack n = format_nodes (cycle_of stack n) ++ format_node n
