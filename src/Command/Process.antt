-- ===== src/Command/Process.antt =====
-- cmd/otel-ecom-load-genrator/main.go: parseFlags, main and startPprof. What package flag reads from
-- the command line is given: the settings that it makes, in order, or the status with which it ends
-- the process (flag.ExitOnError).
pub mod Defaults
pub mod Status
use otel_ecom_load_genrator.Prelude.{ℕ, Bool, false, Option, none, some, List, [], ◌∷◌}
use otel_ecom_load_genrator.Prelude.Int.{ℤ, pos}
use otel_ecom_load_genrator.Prelude.Text.{Text, bytes}
use otel_ecom_load_genrator.Prelude.Float64.{Float64}
use otel_ecom_load_genrator.Command.{Flags, World, Step, RunFault, Ran, run}

-- A flag on the command line, with its value.
pub data Setting : Type 0 where
  set_topology set_backend set_endpoint set_protocol set_nr_region : Text → Setting
  set_namespace set_environment set_timing set_pprof set_log_level : Text → Setting
  set_duration set_report_every : ℤ → Setting
  set_validate_only : Bool → Setting

-- The third arguments of the calls of flag.StringVar and its siblings.
abbrev pub default_flags : Flags
default_flags = record {
  topology = [];
  backend = bytes "newrelic";
  endpoint = [];
  protocol = bytes "grpc";
  nr_region = bytes "us";
  namespace = bytes "ecom";
  environment = bytes "synthetic";
  timing = bytes "synthetic";
  duration = pos 0;
  report_every = pos 30_000_000_000;
  validate_only = false;
  pprof_addr = [];
  log_level = bytes "info";
}

-- The variable that each flag sets.
unfoldable pub set_flag : Setting → Flags → Flags
set_flag (set_topology v) f = record f { topology = v }
set_flag (set_backend v) f = record f { backend = v }
set_flag (set_endpoint v) f = record f { endpoint = v }
set_flag (set_protocol v) f = record f { protocol = v }
set_flag (set_nr_region v) f = record f { nr_region = v }
set_flag (set_namespace v) f = record f { namespace = v }
set_flag (set_environment v) f = record f { environment = v }
set_flag (set_timing v) f = record f { timing = v }
set_flag (set_pprof v) f = record f { pprof_addr = v }
set_flag (set_log_level v) f = record f { log_level = v }
set_flag (set_duration v) f = record f { duration = v }
set_flag (set_report_every v) f = record f { report_every = v }
set_flag (set_validate_only v) f = record f { validate_only = v }

unfoldable pub set_flags : List Setting → Flags → Flags
unfolding set_flag
set_flags [] f = f
set_flags (s ∷ ss) f = set_flags ss (set_flag s f)

unfoldable pub parse_flags : List Setting → Flags
unfolding set_flags
parse_flags settings = set_flags settings default_flags

pub data CommandLine : Type 0 where
  given : List Setting → CommandLine
  misused : ℕ → CommandLine

-- The end of the process: what it has done, what it prints on standard error, and its status.
pub record Exit (F : Type 0) : Type 0 where
  pub steps : List (Step F)
  pub printed : Option RunFault
  pub status : ℕ

abbrev pub exit_of : {F : Type 0} → Ran F → Exit F
exit_of r = record {
  steps = r.steps;
  printed = r.fault;
  status = elim r.fault [ none ↦ 0 | some _ ↦ 1 ];
}

unfoldable pub main : {F : Type 0} → ⦃fl : Float64 F⦄ → World F → CommandLine → Exit F
unfolding run parse_flags
main w (given settings) = exit_of (run w (parse_flags settings))
main w (misused status) = record { steps = []; printed = none; status = status }

-- How ListenAndServe of the profiling server goes: it has not returned, or it returns an error.
pub data Serving : Type 0 where
  still_serving server_closed : Serving
  server_failed : Text → Serving

pub data PprofLine : Type 0 where
  pprof_listening : Text → PprofLine
  pprof_stopped : Text → PprofLine

-- The log lines of startPprof's goroutine, the only thing that it does besides.
unfoldable pub start_pprof : Text → Serving → List PprofLine
start_pprof addr still_serving = pprof_listening addr ∷ []
start_pprof addr server_closed = pprof_listening addr ∷ []
start_pprof addr (server_failed e) = pprof_listening addr ∷ pprof_stopped e ∷ []
