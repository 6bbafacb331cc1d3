-- ===== src/Command/Generates.antt =====
-- When a run generates load.
use otel_ecom_load_genrator.Prelude.{
  ◌≡◌, ◌≢◌, refl, false, none, some, List, [], Mem, inl, map, arith, mem-append_right,
}
use otel_ecom_load_genrator.Prelude.Text.{text_eq, text_eq_iff}
use otel_ecom_load_genrator.Prelude.Float64.{Float64}
use otel_ecom_load_genrator.Config.{File}
use otel_ecom_load_genrator.Validate.Verdict.{Warning}
use otel_ecom_load_genrator.Validate.Load.{loaded, load}
use otel_ecom_load_genrator.Engine.Timing.{TimingMode, parse_timing_mode}
use otel_ecom_load_genrator.Telemetry.Endpoint.{
  Backend, Protocol, ok, parse_backend, parse_protocol,
}
use otel_ecom_load_genrator.Telemetry.Providers.{Providers, ready}
use otel_ecom_load_genrator.Telemetry.Assembly.{set_up}
use otel_ecom_load_genrator.Command.{
  Flags, World, Step, Level, generated, Ran, after, announce, generate, warned, pprof_steps,
  options_of, set_up_run, start_run, loaded_run, level_of, run,
}

-- Load is generated, and the run ends without an error.
abbrev pub Generates : {F : Type 0} → Step F → Ran F → Type 0
Generates step r = Mem step r.steps × (r.fault ≡ none)

Generates-after :
    {F : Type 0} (step : Step F) (before : List (Step F)) (r : Ran F)
    → Generates step r
    → Generates step (after before r)
Generates-after step before r h = (mem-append_right step before r.steps h.0, h.1)

module _ {F : Type 0} ⦃fl : Float64 F⦄ (w : World F) (f : Flags) (file : File F) (ws : List Warning)
    (level : Level) (backend : Backend) (protocol : Protocol) (timing : TimingMode)
    (p : Providers) where
  abbrev load_step : Step F
  load_step = generated file p timing f.report_every

  start_run-Generates :
      parse_backend f.backend ≡ ok backend
      → parse_protocol f.protocol ≡ ok protocol
      → parse_timing_mode f.timing ≡ some timing
      → (set_up w.parts w.env w.sdk file.topology (options_of f backend protocol)).0 ≡ ready p
      → Generates load_step (start_run w f file)
  unfolding start_run set_up_run generate
  start_run-Generates b r m s =
      rw (b, r, m, s, start_run, set_up_run)
        (
          mem-append_right load_step (pprof_steps f.pprof_addr) _
              (mem-append_right load_step (announce w f file backend protocol timing) _ (inl refl)),
          refl,
        )

-- With a known log level, a topology flag whose document loads, no --validate-only, three flags that
-- parse and a Setup that succeeds, a run generates load for that document with the providers that
-- Setup returned, and ends without an error, whatever the Shutdown meets.
pub run-Generates :
    {F : Type 0} ⦃fl : Float64 F⦄ (w : World F) (f : Flags) (file : File F) (ws : List Warning)
    (level : Level) (backend : Backend) (protocol : Protocol) (timing : TimingMode) (p : Providers)
    → level_of f.log_level ≡ some level
    → f.topology ≢ []
    → load w.read w.decode f.topology ≡ loaded file ws
    → f.validate_only ≡ false
    → parse_backend f.backend ≡ ok backend
    → parse_protocol f.protocol ≡ ok protocol
    → parse_timing_mode f.timing ≡ some timing
    → (set_up w.parts w.env w.sdk file.topology (options_of f backend protocol)).0 ≡ ready p
    → Mem (generated file p timing f.report_every) (run w f).steps × ((run w f).fault ≡ none)
unfolding run loaded_run
run-Generates w f file ws level backend protocol timing p known named read only b r m s =
    let started = start_run-Generates w f file ws level backend protocol timing p b r m s in
    let whole : Generates (generated file p timing f.report_every) (loaded_run w f file ws) =
      rw (only, loaded_run) (Generates-after _ (map warned ws) (start_run w f file) started) in
    let given : text_eq f.topology [] ≡ false = ground (arith, text_eq_iff f.topology []) in
    rw (known, given, read, run) whole
