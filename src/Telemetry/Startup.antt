-- ===== src/Telemetry/Startup.antt =====
-- cmd/api/main.go: initializeOpenTelemetry, and the call of its shutdown function when the server
-- stops.
pub mod Laws
use finsplitter.Base.{
  ℕ, String, Bool, true, false, Option, none, some, List, [], ◌∷◌, ◌++◌, if◌then◌else◌,
}
use finsplitter.Effects.{Result, ok, err, panic, Action, pure, fail, lift, catch, ◌>>=◌}
use finsplitter.Errs.{Error, wrap_two, prefixed}
use finsplitter.Config.{Config}
use finsplitter.Telemetry.Options.{
  Options, Setter, new_options, with_service_name, with_service_version, with_environment,
  with_exporter_url, with_insecure, with_exporter_timeout, with_export_interval,
}

-- A shutdown function
abbrev pub Shutdown : Type 0 → Type 0
Shutdown W = Action W Error (Unit {0})

-- The constructors of the three providers. A logger provider is a pointer, which is a number here.
pub record Providers (W : Type 0) : Type 0 where
  pub new_tracer_provider : Options → Action W Error (Shutdown W)
  pub new_meter_provider : Options → Action W Error (Shutdown W)
  pub new_logger_provider : Options → Action W Error (ℕ × Shutdown W)

-- errors.Join of an error that may be nil with one that is not
abbrev pub join_error : Option Error → Error → Error
join_error none e = e
join_error (some e) f = wrap_two "" e "\n" f ""

abbrev result_of : Option Error → Result Error (Unit {0})
result_of none = ok tt
result_of (some e) = err e

module _ {W : Type 0} where
  -- The loop of `shutdown`, with the errors so far. The list of functions is emptied afterwards: the
  -- function is called once.
  unfoldable pub run_all : Option Error → List (Shutdown W) → Shutdown W
  run_all before [] w = (result_of before, w)
  run_all before (f ∷ fs) w =
      let (r, w') = f w in
      elim r as (λ _. Result Error (Unit {0}) × W) [
        | ok _ ↦ run_all before fs w'
        | err e ↦ run_all (some (join_error before e)) fs w'
        | panic p ↦ (panic p, w')
      ]

  unfoldable pub shutdown : List (Shutdown W) → Shutdown W
  unfolding run_all
  shutdown fs = run_all none fs

  -- handleErr and the return after it: what was started is shut down, and its errors are dropped
  abbrev pub give_up : {A : Type 0} → List (Shutdown W) → String → Error → Action W Error A
  give_up fs what e =
      catch (shutdown fs) (λ _. fail (prefixed what e)) (λ _. fail (prefixed what e))

  abbrev pub start_if :
      Bool
      → Action W Error (Shutdown W)
      → List (Shutdown W)
      → String
      → Action W Error (List (Shutdown W))
  start_if enabled start fs what =
      if enabled then catch start (λ f. pure (fs ++ (f ∷ []))) (give_up fs what) else pure fs

abbrev pub setters : Config → List Setter
setters cfg =
    with_service_name cfg.otel.service_name
    ∷ with_service_version cfg.app.version
    ∷ with_environment cfg.env.name
    ∷ with_exporter_url cfg.otel.exporter_url
    ∷ with_insecure cfg.otel.insecure
    ∷ with_exporter_timeout cfg.otel.exporter_timeout
    ∷ with_export_interval cfg.otel.export_interval
    ∷ []

module _ {W : Type 0} (providers : Providers W) (cfg : Config) where
  unfoldable pub start_logs :
      Options → List (Shutdown W) → Action W Error (Option ℕ × Option (Shutdown W))
  unfolding shutdown
  start_logs opts fs =
      if cfg.otel.enable_logs
      then catch (providers.new_logger_provider opts)
          (λ (provider, f). pure (some provider, some (shutdown (fs ++ (f ∷ [])))))
          (give_up fs "failed to initialize logger provider")
      else pure (none, none)

  -- initializeOpenTelemetry: the logger provider and the shutdown function, which may be nil
  unfoldable pub initialize_open_telemetry : Action W Error (Option ℕ × Option (Shutdown W))
  unfolding start_logs new_options shutdown
  initialize_open_telemetry =
      if cfg.otel.enabled
      then catch (lift (new_options (setters cfg)))
          (λ opts.
            start_if cfg.otel.enable_traces (providers.new_tracer_provider opts) []
              "failed to initialize tracer provider"
            >>= λ traced.
                start_if cfg.otel.enable_metrics (providers.new_meter_provider opts) traced
                  "failed to initialize meter provider"
                >>= λ metered. start_logs opts metered)
          (λ e. fail (prefixed "failed to create telemetry options" e))
      else pure (none, none)

-- `otelShutdown(ctx)` in the stop hook: the call of a nil function panics
unfoldable pub stop_telemetry : {W : Type 0} → Option (Shutdown W) → Shutdown W
stop_telemetry none w = (panic "invalid memory address or nil pointer dereference", w)
stop_telemetry (some f) w = f w
