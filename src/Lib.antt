-- ===== src/Lib.antt =====
-- Verification of otel-ecom-load-genrator, a generator of OpenTelemetry traces, metrics and logs for
-- an invented shop. A topology document declares services, their routes and what each route calls;
-- the program validates it, and then walks the call graph from each root route at that route's rate,
-- emitting one span, one log record and the RED metrics for each visit.
--
-- Parts, and the files that model them:
--   cmd/otel-ecom-load-genrator/main.go  Command: run as the steps that it takes and the error that
--                                    it returns. Command.Report has firstLine, Command.Process
--                                    parseFlags, main and startPprof.
--   internal/config/config.go        Config: the document as records with the source's fields,
--                                    FindService, FindRoute and HasErrorDirective. Config.Lookup has
--                                    the lemmas on the look-ups.
--   internal/config/load.go          Validate.Load.
--   internal/config/validate.go      Validate: ValidateWithWarnings. A pass returns a Report: its
--                                    warnings and its first error (Validate.Verdict). The passes are
--                                    in Validate.Parts (validateWeighted, validateLatency,
--                                    validateBusinessMetric, validateSurge), Validate.Services (the
--                                    loop over the services), Validate.References (calls and root
--                                    routes), Validate.Cycles (detectCycles, formatCycle) and
--                                    Validate.Reachable (unreachableServices). Validate.Meaning says
--                                    what a well-formed document is, without the passes.
--   internal/chaos/chaos.go          Chaos (Intn, IntRange, PickWeighted and the pickers) and
--                                    Chaos.SampleLatency.
--   internal/engine/routeattrs.go    Engine.RouteAttributes.
--   internal/engine/engine.go        Engine.Outcome (resolveOutcome, statusCodeOf, errorType,
--                                    spanKind); Engine.Emission (EmitTrace, emitDownstreams,
--                                    recordBusinessMetrics and the counters of the Engine), one
--                                    goroutine after the other; Engine.Emission.Interleaved (their
--                                    increments of the shared counters, in any order, with the panics
--                                    that recoverEmission recovers); Engine.Emission.Business
--                                    (recordBusinessMetrics with the shared instruments);
--                                    Engine.Timing (the timing modes, and the clock times of spans).
--   internal/engine/scheduler.go     Engine.Scheduler: intervals, surges, and the loop of runRoute
--                                    as a step on each tick or cancellation. Engine.Scheduler.Run:
--                                    Run over all root routes, and the reporter. Engine.Lifecycle: the
--                                    goroutines of a whole run as steps in any order. Engine.Stats:
--                                    New and Stats of engine.go.
--   internal/telemetry/attributes.go Telemetry.Attributes.
--   internal/telemetry/emitter.go    Telemetry.Emitter: the instruments of a service. RecordRED is
--                                    in Engine.Emission.
--   internal/telemetry/backend.go    Telemetry.Endpoint: flags, resolveEndpoint, DescribeEndpoint,
--                                    grpcTarget, headers; with hostPort of exporters.go.
--   internal/telemetry/exporters.go  Telemetry.Exporters: the options of each exporter, with the
--                                    metric selectors of backend.go.
--   internal/telemetry/providers.go  Telemetry.Providers: Setup, with the steps of addService that may
--                                    fail as a list, and Shutdown. Telemetry.Assembly: Setup with the
--                                    calls that addService, buildResource and dialGRPC make.
--   internal/telemetry/testing.go    Telemetry.Harness: the services that NewTestHarness registers
--                                    and where it fails; CollectMetricNames.
-- The command loads and validates the document, sets the providers up, and runs the engine for them.
-- The engine uses the look-ups of Config, the pickers of Chaos and the conversion of Telemetry; its
-- recursion ends because of what Validate accepts.
--
-- Conventions. An int or a time.Duration is an integer that wraps at 64 bits (Prelude.Int); the
-- int64 counters of the Engine are natural numbers without that wrap, which takes 2^63 increments. A
-- string is its list of bytes, and case mapping and trimming are those of ASCII text
-- (Prelude.Text). A Go map is an association list, and a range over it goes through the list, so a
-- theorem for every list holds for every order; Config.Listing has the lemmas on two listings of
-- one map. An error is the value of which the message is made.
--
-- Parameters. float64 is a type with the operations that the program uses (Prelude.Float64); only
-- the theorems on latencies assume more of it, the record Rounds. math/rand/v2 is a function from
-- a bound to a number (Chaos.Source), below the bound where a theorem needs that (InRange). What
-- the SDK and gRPC return to Setup and Shutdown is given by functions of the call (Sdk, Build,
-- Parts), what a meter returns by a function of the requests made of it (Meter), and what the
-- exporters' constructors return by one of their options. os.ReadFile and the JSON decoder are
-- functions that may fail (World). The environment variables are the record Env. A downstreamCalls
-- map has no key twice, where the emission is shown to end (IsDecoded) and where detectCycles is
-- shown not to depend on its order (SameRoute), nor what is accepted (RelistedRoute). The ticks
-- and the cancellation that a loop hears are a list, and the clock a number that never goes back.
--
-- Fuel. detectCycles and unreachableServices run with one more than the number of declared routes as
-- the depth of their recursion, and never spend it; EmitTrace takes its depth as an argument, and the
-- same bound is enough for an accepted document. The decimal digits of a number have the number
-- itself, and one, as their fuel.
--
-- Not modelled: the SDK, gRPC and what they do with the options they are given, the environment
-- variables that they read themselves included (OTEL_EXPORTER_OTLP_INSECURE can make an exporter
-- plaintext that was given no option for it); the in-memory exporters, the reader and the processors
-- of NewTestHarness; what package flag reads from the command line, which is given as the settings
-- that it makes; the text of log lines, signals and the HTTP server of pprof; the tests.
-- A panic is one of the SDK in EmitTrace: before its log record is counted, or after its calls have
-- returned. Engine.Emission and Engine.Timing themselves have no panics, and the spans of the former
-- carry their duration in place of clock times.
pub mod Prelude
pub mod Config
pub mod Validate
pub mod Chaos
pub mod Telemetry
pub mod Engine
pub mod Command
mod Tests
