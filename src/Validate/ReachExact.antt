-- ===== src/Validate/ReachExact.antt =====
-- unreachableServices warns of exactly the services that no chain of calls from a root route reaches.
use otel_ecom_load_genrator.Prelude.{
  ◌≡◌, ◌↔◌, subst, some, List, [], ◌∷◌, map, length, suc, arith, Mem,
}
use otel_ecom_load_genrator.Prelude.Text.{Text, contains_iff}
use otel_ecom_load_genrator.Config.{Service, File}
use otel_ecom_load_genrator.Validate.Verdict.{Node, Warning, unreachable_service}
use otel_ecom_load_genrator.Validate.Cycles.{root_nodes, known}
use otel_ecom_load_genrator.Validate.ReachEnds.{reached_from_roots_returns}
use otel_ecom_load_genrator.Validate.Reachable.{
  Reached, reach, reached_from_roots, not_reached, unreachable_services,
}
use otel_ecom_load_genrator.Validate.Reached.{
  IsReached, root, reach_all-Visits, reach-Visits, IsReached-visited,
}

-- The services found are those of the reached nodes.
pub reached_services_iff :
    {F : Type 0} (f : File F) (r : Reached)
    → reached_from_roots f ≡ some r
    → (name : Text)
    → Mem name r.services
      ↔ ((n : Node) × (n.service ≡ name) × IsReached f.topology (root_nodes f.root_routes) n)
unfolding reached_from_roots
reached_services_iff f r e name =
    let t = f.topology in
    let roots = root_nodes f.root_routes in
    let fuel = suc (length (known t)) in
    let start : Reached = record { visited = []; services = [] } in
    let v =
      reach_all-Visits t roots (reach t fuel) (reach-Visits t roots fuel) roots start r
        (record { real = λ x h. absurd h; named = λ x h. absurd h; backed = λ x h. absurd h }) root
        e in
    (
      λ m. let (x, k, same) = v.sound.backed name m in (x, same, v.sound.real x k),
      λ (n, same, way).
          subst (λ y. Mem y r.services) same
            (v.sound.named n (IsReached-visited t roots r v n way)),
    )

module _ {F : Type 0} where
  abbrev pub declared : List (Service F) → List Text
  declared ss = map (λ (s : Service F). s.service_name) ss

  mem-not_reached :
      (services : List Text) (ss : List (Service F)) (name : Text)
      → Mem (unreachable_service name) (not_reached services ss)
        ↔ (Mem name (declared ss) × (¬ Mem name services))
  unfolding not_reached
  mem-not_reached services [] name = (λ h. absurd h, λ h. absurd h.0)
  mem-not_reached services (s ∷ ss) name = (
    ground (arith, contains_iff s.service_name services, mem-not_reached services ss name),
    ground (arith, contains_iff s.service_name services, mem-not_reached services ss name),
  )

-- unreachableServices returns, and warns of exactly the declared services of which no route is
-- reached from a root route by any chain of calls.
pub unreachable_services_iff :
    {F : Type 0} (f : File F)
    → (ws : List Warning) × (unreachable_services f ≡ some ws)
      × ((name : Text)
          → Mem (unreachable_service name) ws ↔ (
              Mem name (declared f.topology.services)
              × (¬ (
                  (n : Node) × (n.service ≡ name)
                  × IsReached f.topology (root_nodes f.root_routes) n))))
unfolding unreachable_services
unreachable_services_iff f =
    let (r, e) = reached_from_roots_returns f in
    (
      not_reached r.services f.topology.services,
      ground arith,
      λ name.
          let listed = mem-not_reached r.services f.topology.services name in
          let met = reached_services_iff f r e name in
          (
            λ m. ((listed.0 m).0, λ way. (listed.0 m).1 (met.1 way)),
            λ (is_declared, none_reached). listed.1 (is_declared, λ m. none_reached (met.0 m)),
          ),
    )
