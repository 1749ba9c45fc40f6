-- ===== src/Telemetry/Providers.antt =====
-- pkg/telemetry: resource.go, tracing/tracer.go, metrics/meter.go and logging/otel.go. The
-- OpenTelemetry SDK and its exporters are a parameter; log lines are left out.
pub mod Laws
use finsplitter.Base.{ℕ, String, Bool, true, Option, none, some, ◌||◌, if◌then◌else◌}
use finsplitter.Base.Int.{ℤ, pos}
use finsplitter.Effects.{Result, ok, err, Action, pure, fail, lift, catch}
use finsplitter.Errs.{Error, plain, prefixed}
use finsplitter.Telemetry.Options.{Options}
use finsplitter.Telemetry.Startup.{Shutdown, Providers}

-- The tests that the code makes on a float64, against the literals 0.0 and 1.0
pub record Floats (F : Type 0) : Type 0 where
  pub below_zero : F → Bool
  pub equals_zero : F → Bool
  pub at_most_zero : F → Bool
  pub at_least_one : F → Bool
  pub above_one : F → Bool
  pub one : F

-- Each of them inside ParentBased
pub data Sampler (F : Type 0) : Type 0 where
  always_sample never_sample : Sampler F
  trace_id_ratio_based : F → Sampler F

pub record ExporterSettings : Type 0 where
  pub endpoint : String
  pub timeout : ℤ
  pub gzip : Bool
  pub first_retry : ℤ
  pub insecure : Bool

-- `detect` is resource.New, which may return a resource and an error; `is_partial` is errors.Is for
-- ErrPartialResource or ErrSchemaURLConflict, and `merge` is Merge with the default resource.
-- Exporters and providers are pointers, which are numbers here. The setters of the global providers
-- are those of the package otel; `shut_down` is the method Shutdown of a provider.
pub record Sdk (W R F : Type 0) : Type 0 where
  pub detect : Options → W → (R × Option Error) × W
  pub is_partial : Error → Bool
  pub merge : R → Result Error R
  pub trace_exporter : ExporterSettings → Action W Error ℕ
  pub metric_exporter : ExporterSettings → Action W Error ℕ
  pub log_exporter : ExporterSettings → Action W Error ℕ
  pub new_tracer : ℕ → R → Sampler F → W → ℕ × W
  pub new_meter : ℕ → ℤ → R → W → ℕ × W
  pub new_logger : ℕ → R → W → ℕ × W
  pub set_tracer : ℕ → W → W
  pub set_propagators : W → W
  pub set_meter : ℕ → W → W
  pub set_logger : ℕ → W → W
  pub shut_down : ℕ → Shutdown W

-- createExporter and createLogExporter: 500 ms before the first retry
unfoldable pub exporter_settings : Options → ExporterSettings
exporter_settings opts = record {
  endpoint = opts.exporter_url;
  timeout = opts.exporter_timeout;
  gzip = true;
  first_retry = pos 500000000;
  insecure = opts.insecure;
}

module _ {F : Type 0} (floats : Floats F) where
  unfoldable pub validate_sampler_ratio : F → Option Error
  validate_sampler_ratio ratio =
      if floats.below_zero ratio || floats.above_one ratio
      then some (plain "samplerRatio must be between 0.0 and 1.0")
      else none

  -- `if samplerRatio == 0.0`
  unfoldable pub or_default_ratio : F → F
  or_default_ratio ratio = if floats.equals_zero ratio then floats.one else ratio

  unfoldable pub create_sampler : F → Sampler F
  create_sampler ratio =
      if floats.at_least_one ratio
      then always_sample
      else if floats.at_most_zero ratio
      then never_sample
      else trace_id_ratio_based ratio

module _ {W R F : Type 0} (sdk : Sdk W R F) where
  unfoldable pub new_resource : Options → Action W Error R
  new_resource opts w =
      let ((res, found), v) = sdk.detect opts w in
      elim found as (λ _. Result Error R × W) [
        | none ↦ (sdk.merge res, v)
        | some e ↦ if sdk.is_partial e then (sdk.merge res, v) else (err e, v)
      ]

  -- A resource and an exporter, which all three providers begin with
  unfoldable pub with_exporter :
      {A : Type 0}
      → (ExporterSettings → Action W Error ℕ)
      → Options
      → (R → ℕ → W → A × W)
      → Action W Error A
  unfolding new_resource exporter_settings
  with_exporter create opts build =
      catch (new_resource opts)
        (λ res.
          catch (create (exporter_settings opts))
            (λ exporter w. let (a, v) = build res exporter w in (ok a, v))
            (λ e. fail (prefixed "failed to create OTLP exporter" e)))
        (λ e. fail (prefixed "failed to create resource" e))

  abbrev pub build_meter : Options → R → ℕ → W → Shutdown W × W
  build_meter opts res exporter w =
      let (mp, v) = sdk.new_meter exporter opts.export_interval res w in
      (sdk.shut_down mp, sdk.set_meter mp v)

  unfoldable pub new_meter_provider : Options → Action W Error (Shutdown W)
  unfolding with_exporter
  new_meter_provider opts = with_exporter sdk.metric_exporter opts (build_meter opts)

  abbrev pub build_logger : R → ℕ → W → (ℕ × Shutdown W) × W
  build_logger res exporter w =
      let (lp, v) = sdk.new_logger exporter res w in ((lp, sdk.shut_down lp), sdk.set_logger lp v)

  unfoldable pub new_logger_provider : Options → Action W Error (ℕ × Shutdown W)
  unfolding with_exporter
  new_logger_provider opts = with_exporter sdk.log_exporter opts build_logger

module _ {W R F : Type 0} (sdk : Sdk W R F) (floats : Floats F) where
  abbrev pub build_tracer : F → R → ℕ → W → Shutdown W × W
  build_tracer ratio res exporter w =
      let sampler = create_sampler floats (or_default_ratio floats ratio) in
      let (tp, v) = sdk.new_tracer exporter res sampler w in
      (sdk.shut_down tp, sdk.set_propagators (sdk.set_tracer tp v))

  unfoldable pub new_tracer_provider : F → Options → Action W Error (Shutdown W)
  unfolding validate_sampler_ratio or_default_ratio create_sampler with_exporter
  new_tracer_provider ratio opts =
      elim (validate_sampler_ratio floats ratio) as (λ _. Action W Error (Shutdown W)) [
        | some e ↦ fail (prefixed "invalid sampler ratio" e)
        | none ↦ with_exporter sdk sdk.trace_exporter opts (build_tracer ratio)
      ]

  -- as initializeOpenTelemetry calls them
  abbrev pub providers : F → Providers W
  providers ratio = record {
    new_tracer_provider = new_tracer_provider ratio;
    new_meter_provider = new_meter_provider sdk;
    new_logger_provider = new_logger_provider sdk;
  }
