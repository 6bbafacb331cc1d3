-- ===== src/Tests/ProcessWitness.antt =====
-- The theorems on the whole process, with the default flags and a license key.
use otel_ecom_load_genrator.Prelude.{◌≡◌, refl, [], ◌∷◌, Mem}
use otel_ecom_load_genrator.Prelude.Int.{ℤ, pos, ◌+ℤ◌, ◌*ℤ◌, wrap64}
use otel_ecom_load_genrator.Prelude.Text.{bytes}
use otel_ecom_load_genrator.Validate.Verdict.{◌>>◌}
use otel_ecom_load_genrator.Validate.Load.{loaded, load}
use otel_ecom_load_genrator.Engine.Timing.{synthetic}
use otel_ecom_load_genrator.Telemetry.Providers.{Providers}
use otel_ecom_load_genrator.Command.{World, generated}
use otel_ecom_load_genrator.Command.Process.{set_topology, given, main}
use otel_ecom_load_genrator.Command.Process.Defaults.{main-default}
use otel_ecom_load_genrator.Command.Process.Status.{main-unflushed}
use otel_ecom_load_genrator.Tests.Sample.{shop, whole, zeroed}
use otel_ecom_load_genrator.Tests.ProvidersWitness.{flaky}
use otel_ecom_load_genrator.Tests.CommandWitness.{world}

abbrev keyed_world : World ℤ
keyed_world = record world { env = record { otlp_endpoint = []; license_key = bytes "k" } }

loads : load keyed_world.read keyed_world.decode (bytes "shop.json") ≡ loaded shop []
unfolding load ◌+ℤ◌ ◌*ℤ◌ wrap64 ◌>>◌
loads = refl

main-default_example :
    (p : Providers) × Mem
      (generated shop p synthetic (pos 30_000_000_000))
      (main keyed_world (given (set_topology (bytes "shop.json") ∷ []))).steps
    × ((main keyed_world (given (set_topology (bytes "shop.json") ∷ []))).status ≡ 0)
main-default_example =
    main-default keyed_world (bytes "shop.json") shop [] (λ e. cc) loads refl (λ e. cc) refl
      (record {
        resources = λ i attributes. refl;
        exporters = λ i signal os. refl;
        instruments = λ i before r. refl;
      })

-- With a Shutdown that fails.
main-unflushed_example :
    ((main keyed_world (given (set_topology (bytes "shop.json") ∷ []))).status
      ≡ (main
          (record keyed_world { sdk = flaky; counted = zeroed })
          (given (set_topology (bytes "shop.json") ∷ []))).status)
    × ((main keyed_world (given (set_topology (bytes "shop.json") ∷ []))).printed
        ≡ (main
            (record keyed_world { sdk = flaky; counted = zeroed })
            (given (set_topology (bytes "shop.json") ∷ []))).printed)
main-unflushed_example =
    main-unflushed keyed_world flaky zeroed (given (set_topology (bytes "shop.json") ∷ []))
