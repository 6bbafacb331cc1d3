-- ===== src/Command/Outcomes.antt =====
-- How a run can end, and what it has done by then.
use otel_ecom_load_genrator.Prelude.{
  length, ◌≡◌, refl, sym, ap, ◌∙◌, Bool, true, false, Option, none, some, List, [], ◌∷◌, ◌++◌, map,
  All, append_assoc, ltb, if◌then◌else◌,
}
use otel_ecom_load_genrator.Prelude.Int.{ltb_ℤ, pos}
use otel_ecom_load_genrator.Prelude.Text.{text_eq}
use otel_ecom_load_genrator.Prelude.Float64.{Float64}
use otel_ecom_load_genrator.Config.{File}
use otel_ecom_load_genrator.Validate.{validate_with_warnings}
use otel_ecom_load_genrator.Validate.Verdict.{Warning, Accepts}
use otel_ecom_load_genrator.Validate.Load.{Loaded, loaded, not_loaded, load, load-Accepts}
use otel_ecom_load_genrator.Engine.Timing.{TimingMode, parse_timing_mode}
use otel_ecom_load_genrator.Telemetry.Endpoint.{
  Backend, Protocol, Result, ok, err, parse_backend, parse_protocol,
}
use otel_ecom_load_genrator.Telemetry.Providers.{
  Call, Providers, Progress, SetUp, ready, refused, not_connected, given_up, shutdown,
}
use otel_ecom_load_genrator.Telemetry.Assembly.{set_up}
use otel_ecom_load_genrator.Command.Report.{first_line, message}
use otel_ecom_load_genrator.Engine.Emission.{Counters}
use otel_ecom_load_genrator.Prelude.Text.{Text}
use otel_ecom_load_genrator.Command.{
  no_topology, valid, bad_level, bad_file, bad_flag, bad_timing, announce, report_end, for_duration,
  not_flushed, panics_recovered, pprof, Level, Flags, World, Step, warned, generated, shutting_down,
  stopped, RunFault, Ran, stop, after, options_of, generate, set_up_run, pprof_steps, start_run,
  loaded_run, run, level_of,
}

abbrev pub IsPlain : {F : Type 0} → Step F → Type 0
IsPlain (generated _ _ _ _) = ⊥
IsPlain _ = Unit

-- No load is generated by these steps.
abbrev pub Quiet : {F : Type 0} → List (Step F) → Type 0
Quiet steps = All IsPlain steps

Quiet-append : {F : Type 0} (xs ys : List (Step F)) → Quiet xs → Quiet ys → Quiet (xs ++ ys)
Quiet-append [] ys h k = k
Quiet-append (x ∷ xs) ys h k = (h.0, Quiet-append xs ys h.1 k)

Quiet-map : (F : Type 0) (ws : List Warning) → Quiet {F = F} (map warned ws)
Quiet-map F [] = tt
Quiet-map F (w ∷ ws) = (tt, Quiet-map F ws)

module _ {F : Type 0} ⦃fl : Float64 F⦄ (w : World F) (f : Flags) where
  -- A run fails without any load, or only validates, or generates load for a document that
  -- validation accepts, with the providers of a successful Setup, and then at once winds down by a
  -- Shutdown of all of them; that it does without an error, whatever the Shutdown meets.
  pub data Ending (r : Ran F) : Type 0 where
    failed : (e : RunFault) → r.fault ≡ some e → Quiet r.steps → Ending r
    validated : r.fault ≡ none → f.validate_only ≡ true → Quiet r.steps → Ending r
    ran :
        (file : File F) (p : Providers) (backend : Backend) (protocol : Protocol)
        (timing : TimingMode) (before rest : List (Step F))
        → r.fault ≡ none
        → f.validate_only ≡ false
        → Accepts (validate_with_warnings (some file))
        → (set_up w.parts w.env w.sdk file.topology (options_of f backend protocol)).0 ≡ ready p
        → r.steps
          ≡ before
            ++ generated file p timing f.report_every
              ∷ shutting_down
              ∷ stopped (shutdown w.sdk p)
              ∷ rest
        → Quiet before
        → Quiet rest
        → Ending r

  after-Ending :
      (before : List (Step F)) (r : Ran F) → Quiet before → Ending r → Ending (after before r)
  after-Ending before r h (failed e fault quiet) =
      failed e fault (Quiet-append before r.steps h quiet)
  after-Ending before r h (validated fault only quiet) =
      validated fault only (Quiet-append before r.steps h quiet)
  after-Ending before r h
        (ran file p backend protocol timing xs ys fault only accepted set steps quiet quiet') =
      ran file p backend protocol timing (before ++ xs) ys fault only accepted set
        (ap (λ s. before ++ s) steps ∙ sym (append_assoc before xs _))
        (Quiet-append before xs h quiet) quiet'

  announce-Quiet :
      (file : File F) (backend : Backend) (protocol : Protocol) (timing : TimingMode)
      → Quiet (announce w f file backend protocol timing)
  unfolding announce
  announce-Quiet file backend protocol timing = (tt, by_duration (ltb_ℤ (pos 0) f.duration))
    where
      by_duration : (b : Bool) → Quiet {F = F} (if b then for_duration f.duration ∷ [] else [])
      by_duration true = (tt, tt)
      by_duration false = tt

  report_end-Quiet : (d : Progress) (c : Counters) → Quiet {F = F} (report_end d c)
  unfolding report_end
  report_end-Quiet d c =
      Quiet-append _ _ (by_errors d.errors)
        (tt, Quiet-append _ _ (by_panics (ltb 0 c.panics)) (tt, tt))
    where
      by_errors :
          (es : List (Call × Text))
          → Quiet {F = F}
              (elim es [ [] ↦ [] | x ∷ xs ↦ not_flushed (first_line (message (x ∷ xs))) ∷ [] ])
      by_errors [] = tt
      by_errors (x ∷ xs) = (tt, tt)

      by_panics : (b : Bool) → Quiet {F = F} (if b then panics_recovered c.panics ∷ [] else [])
      by_panics true = (tt, tt)
      by_panics false = tt

  set_up_run-Ending :
      (file : File F) (backend : Backend) (protocol : Protocol) (timing : TimingMode) (o : SetUp)
      → f.validate_only ≡ false
      → Accepts (validate_with_warnings (some file))
      → (set_up w.parts w.env w.sdk file.topology (options_of f backend protocol)).0 ≡ o
      → Ending (set_up_run w f file backend protocol timing o)
  unfolding set_up_run generate
  set_up_run-Ending file backend protocol timing (ready p) only accepted e =
      ran file p backend protocol timing (announce w f file backend protocol timing)
        (report_end (shutdown w.sdk p) w.counted) refl only accepted e refl
        (announce-Quiet file backend protocol timing)
        (report_end-Quiet (shutdown w.sdk p) w.counted)
  set_up_run-Ending file backend protocol timing (refused x) only accepted e = failed _ refl tt
  set_up_run-Ending file backend protocol timing (not_connected x) only accepted e =
      failed _ refl tt
  set_up_run-Ending file backend protocol timing (given_up i stage x d) only accepted e =
      failed _ refl tt

  pprof_steps-Quiet : Quiet {F = F} (pprof_steps f.pprof_addr)
  pprof_steps-Quiet = (tt, by_addr (text_eq f.pprof_addr []))
    where
      by_addr : (b : Bool) → Quiet {F = F} (if b then [] else pprof f.pprof_addr ∷ [])
      by_addr true = tt
      by_addr false = (tt, tt)

  -- A step that parses a flag either fails or goes on.
  Ending-parsed :
      {A : Type 0} (parsed : Result A) (k : A → Ran F)
      → ((a : A) → Ending (k a))
      → Ending (elim parsed [ err e ↦ stop (bad_flag e) | ok a ↦ k a ])
  Ending-parsed (err e) k each = failed _ refl tt
  Ending-parsed (ok a) k each = each a

  Ending-timed :
      (parsed : Option TimingMode) (k : TimingMode → Ran F)
      → ((m : TimingMode) → Ending (k m))
      → Ending (elim parsed [ none ↦ stop (bad_timing f.timing) | some m ↦ k m ])
  Ending-timed none k each = failed _ refl tt
  Ending-timed (some m) k each = each m

  start_run-Ending :
      (file : File F)
      → f.validate_only ≡ false
      → Accepts (validate_with_warnings (some file))
      → Ending (start_run w f file)
  unfolding start_run
  start_run-Ending file only accepted = Ending-parsed (parse_backend f.backend) _ λ backend.
      Ending-parsed (parse_protocol f.protocol) _ λ protocol.
        Ending-timed (parse_timing_mode f.timing) _ λ timing.
          after-Ending (pprof_steps f.pprof_addr) _ pprof_steps-Quiet
            (set_up_run-Ending file backend protocol timing _ only accepted refl)

  loaded_run-Ending :
      (file : File F) (ws : List Warning)
      → Accepts (validate_with_warnings (some file))
      → Ending (loaded_run w f file ws)
  unfolding loaded_run
  loaded_run-Ending file ws accepted =
      after-Ending (map warned ws) _ (Quiet-map F ws) (by_flag f.validate_only refl)
    where
      only_valid : Ran F
      only_valid = record {
        steps = valid (length file.topology.services) (length file.root_routes) (length ws) ∷ [];
        fault = none;
      }

      by_flag :
          (b : Bool) → f.validate_only ≡ b → Ending (if b then only_valid else start_run w f file)
      by_flag true e = validated refl e (tt, tt)
      by_flag false e = start_run-Ending file e accepted

  load_run-Ending :
      (o : Loaded F)
      → load w.read w.decode f.topology ≡ o
      → Ending (elim o [
        | not_loaded warnings e ↦ after (map warned warnings) (stop (bad_file e))
        | loaded file warnings ↦ loaded_run w f file warnings
      ])
  load_run-Ending (not_loaded ws e) h =
      after-Ending (map warned ws) (stop (bad_file e)) (Quiet-map F ws) (failed _ refl tt)
  load_run-Ending (loaded file ws) h =
      loaded_run-Ending file ws (load-Accepts w.read w.decode f.topology file ws h)

-- Every run ends in one of three ways: it fails before any load; it only validates; or it generates
-- load, for a document that ValidateWithWarnings accepts and with the providers of a successful
-- Setup, follows that at once by a Shutdown of all of them, and returns no error, whatever the
-- Shutdown meets.
pub run-Ending : {F : Type 0} ⦃fl : Float64 F⦄ (w : World F) (f : Flags) → Ending w f (run w f)
unfolding run
run-Ending w f = by_level (level_of f.log_level)
  where
    by_topology :
        (b : Bool)
        → Ending w f (
            if b then stop no_topology else elim (load w.read w.decode f.topology) [
              | not_loaded warnings e ↦ after (map warned warnings) (stop (bad_file e))
              | loaded file warnings ↦ loaded_run w f file warnings
            ])
    by_topology true = failed _ refl tt
    by_topology false = load_run-Ending w f _ refl

    by_level :
        (l : Option Level)
        → Ending w f (elim l [
          | none ↦ stop (bad_level f.log_level)
          | some _ ↦
              if text_eq f.topology []
              then stop no_topology
              else elim (load w.read w.decode f.topology) [
                | not_loaded warnings e ↦ after (map warned warnings) (stop (bad_file e))
                | loaded file warnings ↦ loaded_run w f file warnings
              ]
        ])
    by_level none = failed _ refl tt
    by_level (some _) = by_topology (text_eq f.topology [])
