-- ===== src/Command.antt =====
-- cmd/otel-ecom-load-genrator/main.go: run, as the steps that it takes and the error that it returns.
-- The flags are those that package flag has parsed. The log lines are steps of their own.
pub mod Report
pub mod Process
pub mod Outcomes
pub mod Traffic
pub mod Visits
pub mod Generates
pub mod Lines
use otel_ecom_load_genrator.Prelude.{
  ℕ, zero, suc, Bool, true, false, Option, none, some, List, [], ◌∷◌, ◌++◌, map, length,
  if◌then◌else◌, ltb, not,
}
use otel_ecom_load_genrator.Prelude.Int.{ℤ, pos, ltb_ℤ, ◌+ℤ◌}
use otel_ecom_load_genrator.Prelude.Text.{Text, bytes, text_eq}
use otel_ecom_load_genrator.Prelude.Float64.{Float64}
use otel_ecom_load_genrator.Config.{File, RootRoute}
use otel_ecom_load_genrator.Validate.Verdict.{Warning}
use otel_ecom_load_genrator.Validate.Load.{Attempt, LoadFault, loaded, not_loaded, load}
use otel_ecom_load_genrator.Engine.Emission.{Counters}
use otel_ecom_load_genrator.Engine.Timing.{TimingMode, parse_timing_mode}
use otel_ecom_load_genrator.Telemetry.Endpoint.{
  Env, Options, Backend, Protocol, Fault, ok, err, Description, parse_backend, parse_protocol,
  describe_endpoint,
}
use otel_ecom_load_genrator.Telemetry.Providers.{
  Providers, Sdk, Progress, SetUp, ready, refused, not_connected, given_up, shutdown,
}
use otel_ecom_load_genrator.Telemetry.Assembly.{Parts, set_up}
use otel_ecom_load_genrator.Command.Report.{first_line, message}

pub record Flags : Type 0 where
  pub topology : Text
  pub backend : Text
  pub endpoint : Text
  pub protocol : Text
  pub nr_region : Text
  pub namespace : Text
  pub environment : Text
  pub timing : Text
  pub duration : ℤ
  pub report_every : ℤ
  pub validate_only : Bool
  pub pprof_addr : Text
  pub log_level : Text

pub data Level : Type 0 where
  debug info warn error : Level

-- newLogger, without the logger: `none` stands for the error, which quotes the argument.
unfoldable pub level_of : Text → Option Level
unfolding text_eq
level_of level =
    if text_eq level (bytes "debug")
    then some debug
    else if text_eq level (bytes "info")
    then some info
    else if text_eq level (bytes "warn")
    then some warn
    else if text_eq level (bytes "error")
    then some error
    else none

-- What the run meets: the file system, the decoder, the environment, the SDK, and the counters that
-- the engine has when the context ends it.
pub record World (F : Type 0) : Type 0 where
  pub read : Text → Attempt Text
  pub decode : Text → Attempt (File F)
  pub env : Env
  pub parts : Parts
  pub sdk : Sdk
  pub counted : Counters

pub data Step (F : Type 0) : Type 0 where
  warned : Warning → Step F
  valid : ℕ → ℕ → ℕ → Step F
  error_handler : Step F
  pprof : Text → Step F
  -- The numbers are those of the services, of the root routes, and the sum of the rates.
  starting : Backend → Description → Protocol → ℕ → ℕ → ℤ → TimingMode → Step F
  for_duration : ℤ → Step F
  -- Engine.Run, for the document, the providers, the timing mode and the reporting interval.
  generated : File F → Providers → TimingMode → ℤ → Step F
  shutting_down : Step F
  stopped : Progress → Step F
  not_flushed : Text → Step F
  summary : Counters → Step F
  panics_recovered : ℕ → Step F
  complete : Step F

pub data RunFault : Type 0 where
  bad_level bad_timing : Text → RunFault
  no_topology : RunFault
  bad_file : LoadFault → RunFault
  bad_flag : Fault → RunFault
  not_set_up : Fault → RunFault
  no_connection : Text → RunFault
  no_service : ℕ → Text → RunFault

pub record Ran (F : Type 0) : Type 0 where
  pub steps : List (Step F)
  pub fault : Option RunFault

abbrev pub stop : {F : Type 0} → RunFault → Ran F
stop e = record { steps = []; fault = some e }

abbrev pub after : {F : Type 0} → List (Step F) → Ran F → Ran F
after before r = record { steps = before ++ r.steps; fault = r.fault }

-- The sum of the rates, with the wrap-around of an int.
unfoldable pub total_rate : ℤ → List RootRoute → ℤ
total_rate total [] = total
total_rate total (rr ∷ rest) = total_rate (total +ℤ rr.traces_per_hour) rest

abbrev pub options_of : Flags → Backend → Protocol → Options
options_of f backend protocol = record {
  backend = backend;
  protocol = protocol;
  region = f.nr_region;
  namespace = f.namespace;
  environment = f.environment;
  endpoint = f.endpoint;
  endpoint_override = [];
}

-- Those that DescribeEndpoint is given.
abbrev pub described_options : Flags → Backend → Protocol → Options
described_options f backend protocol = record (options_of f backend protocol) {
  namespace = [];
  environment = [];
}

module _ {F : Type 0} where
  -- What follows the Shutdown; a failed flush is only reported.
  unfoldable pub report_end : Progress → Counters → List (Step F)
  unfolding first_line message
  report_end d c =
      elim d.errors [ [] ↦ [] | e ∷ es ↦ not_flushed (first_line (message (e ∷ es))) ∷ [] ]
      ++ (summary c
          ∷ ((if ltb 0 c.panics then panics_recovered c.panics ∷ [] else []) ++ complete ∷ []))

  unfoldable pub announce :
      World F → Flags → File F → Backend → Protocol → TimingMode → List (Step F)
  unfolding describe_endpoint total_rate
  announce w f file backend protocol timing =
      starting backend (describe_endpoint w.env (described_options f backend protocol)) protocol
        (length file.topology.services) (length file.root_routes)
        (total_rate (pos 0) file.root_routes) timing
      ∷ (if ltb_ℤ (pos 0) f.duration then for_duration f.duration ∷ [] else [])

  unfoldable pub generate :
      World F → Flags → File F → Backend → Protocol → TimingMode → Providers → List (Step F)
  unfolding announce report_end shutdown
  generate w f file backend protocol timing p =
      announce w f file backend protocol timing
      ++ generated file p timing f.report_every
        ∷ shutting_down
        ∷ stopped (shutdown w.sdk p)
        ∷ report_end (shutdown w.sdk p) w.counted

  -- From telemetry.Setup on.
  unfoldable pub set_up_run :
      World F → Flags → File F → Backend → Protocol → TimingMode → SetUp → Ran F
  unfolding generate
  set_up_run w f file backend protocol timing (ready p) = record {
    steps = generate w f file backend protocol timing p;
    fault = none;
  }
  set_up_run w f file backend protocol timing (refused e) = stop (not_set_up e)
  set_up_run w f file backend protocol timing (not_connected e) = stop (no_connection e)
  set_up_run w f file backend protocol timing (given_up i stage e d) = stop (no_service i e)

  abbrev pub pprof_steps : Text → List (Step F)
  pprof_steps addr = error_handler ∷ (if text_eq addr [] then [] else pprof addr ∷ [])

  -- The flags that are parsed once the document is loaded.
  unfoldable pub start_run : World F → Flags → File F → Ran F
  unfolding parse_backend parse_protocol parse_timing_mode set_up_run set_up
  start_run w f file = elim (parse_backend f.backend) [
    | err e ↦ stop (bad_flag e)
    | ok backend ↦ elim (parse_protocol f.protocol) [
      | err e ↦ stop (bad_flag e)
      | ok protocol ↦ elim (parse_timing_mode f.timing) [
        | none ↦ stop (bad_timing f.timing)
        | some timing ↦ after (pprof_steps f.pprof_addr) (
            set_up_run w f file backend protocol timing
              (set_up w.parts w.env w.sdk file.topology (options_of f backend protocol)).0)
      ]
    ]
  ]

  unfoldable pub loaded_run : World F → Flags → File F → List Warning → Ran F
  unfolding start_run
  loaded_run w f file warnings = after (map warned warnings) (
      if f.validate_only
      then record {
        steps =
            valid (length file.topology.services) (length file.root_routes) (length warnings) ∷ [];
        fault = none;
      }
      else start_run w f file)

module _ {F : Type 0} ⦃fl : Float64 F⦄ where
  unfoldable pub run : World F → Flags → Ran F
  unfolding level_of text_eq load loaded_run
  run w f = elim (level_of f.log_level) [
    | none ↦ stop (bad_level f.log_level)
    | some _ ↦
        if text_eq f.topology [] then stop no_topology else elim (load w.read w.decode f.topology) [
          | not_loaded warnings e ↦ after (map warned warnings) (stop (bad_file e))
          | loaded file warnings ↦ loaded_run w f file warnings
        ]
  ]
