-- ===== src/Tests/ValidateWitness.antt =====
-- The theorems on validation at the sample documents.
use otel_ecom_load_genrator.Prelude.{◌≡◌, ◌↔◌, refl, inl, inr, some, List, [], ◌∷◌, ◌++◌}
use mathlib.Core.List.Permᴰ
use otel_ecom_load_genrator.Config.{File, Service}
use otel_ecom_load_genrator.Validate.{validate_with_warnings}
use otel_ecom_load_genrator.Validate.Verdict.{◌>>◌, Node, Accepts, Warning, unreachable_service}
use otel_ecom_load_genrator.Validate.FileExact.{FileOk, validate_with_warnings_iff}
use otel_ecom_load_genrator.Prelude.Int.{ℤ, wrap64, ◌+ℤ◌, ◌*ℤ◌}
use otel_ecom_load_genrator.Prelude.Text.{Text, bytes}
use otel_ecom_load_genrator.Prelude.{Mem}
use otel_ecom_load_genrator.Validate.Reachable.{unreachable_services}
use otel_ecom_load_genrator.Validate.Reached.{IsReached}
use otel_ecom_load_genrator.Validate.ReachExact.{declared, unreachable_services_iff}
use otel_ecom_load_genrator.Validate.Cycles.{root_nodes, detect_cycles, found, cycle_of}
use otel_ecom_load_genrator.Validate.Cycles.Graph.{IsWalk, StartsIn}
use otel_ecom_load_genrator.Validate.Cycles.Decides.{AllEnd, ReportsNone, detect_cycles_decides}
use otel_ecom_load_genrator.Validate.Cycles.Genuine.{detect_cycles-IsWalk}
use otel_ecom_load_genrator.Validate.Cycles.MapOrder.{detect_cycles_any_order}
use otel_ecom_load_genrator.Validate.AnyOrder.{with_services, validate_with_warnings_any_order}
use otel_ecom_load_genrator.Tests.Sample.{
  get_cart, route, root, web_service, cart_service, db_service, service, hgetall, shop, looping,
  whole,
}
use otel_ecom_load_genrator.Tests.Runs.{web, cart}

validate_with_warnings_iff_example : Accepts (validate_with_warnings (some shop)) ↔ FileOk shop
validate_with_warnings_iff_example = validate_with_warnings_iff shop

detect_cycles_decides_example : ReportsNone looping ↔ AllEnd looping
detect_cycles_decides_example = detect_cycles_decides looping

looping-found : detect_cycles looping ≡ found (web ∷ cart ∷ []) web
unfolding detect_cycles
looping-found = refl

detect_cycles-IsWalk_example :
    IsWalk looping.topology (web ∷ cart ∷ web ∷ [])
    × StartsIn (root_nodes looping.root_routes) (web ∷ cart ∷ web ∷ [])
    × ((rest : List Node) × (cycle_of (web ∷ cart ∷ []) web ≡ web ∷ rest)
        × IsWalk looping.topology (web ∷ (rest ++ web ∷ [])))
detect_cycles-IsWalk_example = detect_cycles-IsWalk looping (web ∷ cart ∷ []) web looping-found

abbrev idle : File ℤ
idle = record {
  topology = record {
    services = web_service ∷ cart_service ∷ db_service ∷ service "old" (hgetall ∷ []) ∷ [];
  };
  root_routes = root ∷ [];
  surges = [];
}

unreachable_services_iff_example :
    (ws : List Warning) × (unreachable_services idle ≡ some ws)
    × ((name : Text)
        → Mem (unreachable_service name) ws ↔ (
            Mem name (declared idle.topology.services)
            × (¬ (
                (n : Node) × (n.service ≡ name)
                × IsReached idle.topology (root_nodes idle.root_routes) n))))
unreachable_services_iff_example = unreachable_services_iff idle

-- The two listings of a map of two calls, on a document with a cycle behind one of them.
abbrev two_calls : List (Text × Text)
two_calls = (bytes "cart", bytes "GET /cart") ∷ (bytes "db", bytes "HGETALL") ∷ []

abbrev two_calls_swapped : List (Text × Text)
two_calls_swapped = (bytes "db", bytes "HGETALL") ∷ (bytes "cart", bytes "GET /cart") ∷ []

abbrev calling : List (Text × Text) → File ℤ
calling calls = record looping {
  topology = record {
    services =
        service "web" (route "GET /" "server" calls [] ∷ [])
        ∷ service "cart" (route "GET /cart" "server" ((bytes "web", bytes "GET /") ∷ []) [] ∷ [])
        ∷ db_service
        ∷ [];
  };
}

detect_cycles_any_order_example :
    detect_cycles (calling two_calls) ≡ detect_cycles (calling two_calls_swapped)
detect_cycles_any_order_example =
    detect_cycles_any_order (calling two_calls) (calling two_calls_swapped)
      (
        (
          refl,
          (
            (refl, Permᴰ.swap refl refl, (λ h. elim h [ inl e ↦ cc | inr b ↦ b ], (λ b. b, tt))),
            tt,
          ),
        ),
        (
          (refl, ((refl, Permᴰ.refl ((bytes "web", bytes "GET /") ∷ []), (λ b. b, tt)), tt)),
          ((refl, ((refl, Permᴰ.nil, tt), tt)), tt),
        ),
      )
      refl

-- The accepted document whose first route calls two services, and the same with its calls swapped.
abbrev two_called : File ℤ
two_called = record shop {
  topology = record {
    services =
        service "web" (route "GET /" "server" two_calls [] ∷ []) ∷ cart_service ∷ db_service ∷ [];
  };
}

abbrev swapped_services : List (Service ℤ)
swapped_services =
    service "web" (route "GET /" "server" two_calls_swapped [] ∷ [])
    ∷ cart_service
    ∷ db_service
    ∷ []

two_called-accepted : Accepts (validate_with_warnings (some two_called))
unfolding validate_with_warnings ◌+ℤ◌ ◌*ℤ◌ wrap64 ◌>>◌
two_called-accepted = refl

validate_with_warnings_any_order_example :
    Accepts (validate_with_warnings (some (with_services two_called swapped_services)))
validate_with_warnings_any_order_example =
    validate_with_warnings_any_order two_called swapped_services
      (
        (
          route "GET /" "server" two_calls_swapped [] ∷ [],
          refl,
          (
            (
              two_calls_swapped,
              refl,
              Permᴰ.swap refl refl,
              (λ h. elim h [ inl e ↦ cc | inr b ↦ b ], (λ b. b, tt)),
            ),
            tt,
          ),
        ),
        (
          (
            get_cart ∷ [],
            refl,
            (((bytes "db", bytes "HGETALL") ∷ [], refl, Permᴰ.refl _, (λ b. b, tt)), tt),
          ),
          ((hgetall ∷ [], refl, (([], refl, Permᴰ.nil, tt), tt)), tt),
        ),
      )
      two_called-accepted
