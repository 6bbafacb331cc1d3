-- ===== src/Tests/CommandWitness.antt =====
-- The theorems on the command at the sample document.
use otel_ecom_load_genrator.Prelude.{◌≡◌, refl, false, none, some, [], inl, inr, Mem}
use otel_ecom_load_genrator.Prelude.Int.{ℤ, pos, wrap64, ◌+ℤ◌, ◌*ℤ◌}
use otel_ecom_load_genrator.Prelude.Text.{bytes, text_eq}
use otel_ecom_load_genrator.Validate.Verdict.{◌>>◌}
use otel_ecom_load_genrator.Validate.Cycles.{root_nodes}
use otel_ecom_load_genrator.Config.{Service, Route, find_service, find_route}
use otel_ecom_load_genrator.Validate.Reached.{IsReached, root, call, HasCall}
use otel_ecom_load_genrator.Command.Visits.{run-resolve_visit}
use otel_ecom_load_genrator.Validate.Load.{done}
use otel_ecom_load_genrator.Engine.Emission.{resolve_visit}
use otel_ecom_load_genrator.Engine.Timing.{nested}
use otel_ecom_load_genrator.Telemetry.Assembly.{Parts}
use otel_ecom_load_genrator.Command.{Flags, World, generated, run}
use otel_ecom_load_genrator.Command.Outcomes.{Ending, run-Ending}
use otel_ecom_load_genrator.Tests.Sample.{
  shop_topology, whole, web_service, home, cart_service, get_cart, shop, no_env,
}
use otel_ecom_load_genrator.Tests.Runs.{web, cart, db, shop_counters}
use otel_ecom_load_genrator.Tests.ProvidersWitness.{quiet, shop_providers}

-- Every call succeeds.
abbrev pub working : Parts
working = record {
  new_resource = λ i attributes. none;
  new_client = λ target transport. none;
  new_exporter = λ i signal os. none;
  meter = λ i before r. none;
}

abbrev pub world : World ℤ
world = record {
  read = λ path. done [];
  decode = λ raw. done shop;
  env = no_env;
  parts = working;
  sdk = quiet;
  counted = shop_counters;
}

abbrev flags : Flags
flags = record {
  topology = bytes "topology.json";
  backend = bytes "local";
  endpoint = [];
  protocol = bytes "grpc";
  nr_region = bytes "us";
  namespace = [];
  environment = [];
  timing = bytes "nested";
  duration = pos 0;
  report_every = pos 30_000_000_000;
  validate_only = false;
  pprof_addr = [];
  log_level = bytes "info";
}

generates : Mem (generated shop shop_providers nested (pos 30_000_000_000)) (run world flags).steps
unfolding run ◌+ℤ◌ ◌*ℤ◌ wrap64 ◌>>◌
generates = inr (inr (inl refl))

run-Ending_example : Ending world flags (run world flags)
run-Ending_example = run-Ending world flags

web-calls : HasCall shop_topology web cart
unfolding find_service find_route text_eq
web-calls = record {
  svc = web_service;
  route = home;
  found_service = refl;
  found_route = refl;
  entry = inl refl;
}

cart-calls : HasCall shop_topology cart db
unfolding find_service find_route text_eq
cart-calls = record {
  svc = cart_service;
  route = get_cart;
  found_service = refl;
  found_route = refl;
  entry = inl refl;
}

db-IsReached : IsReached shop_topology (root_nodes shop.root_routes) db
unfolding root_nodes
db-IsReached = call cart db (call web cart (root web (inl refl)) web-calls) cart-calls

run-resolve_visit_example :
    (s : Service ℤ) × (r : Route ℤ) × (resolve_visit shop_topology shop_providers.emitters db
      ≡ some (s, r))
run-resolve_visit_example =
    run-resolve_visit world flags shop shop_providers nested (pos 30_000_000_000) db generates
      db-IsReached
