-- ===== src/Telemetry/Providers/Laws.antt =====
-- What the providers leave behind, and what the sampling ratio means.
use finsplitter.Base.{ℕ, ◌≡◌, ◌⊎◌, true, none, arith, Option-cases, Bool-cases, inl, inr}
use finsplitter.Effects.{err, Action}
use finsplitter.Effects.Laws.{run_cases, returns, fails, panics}
use finsplitter.Errs.{Error}
use finsplitter.Telemetry.Options.{Options}
use finsplitter.Telemetry.Providers.{
  Floats, always_sample, trace_id_ratio_based, ExporterSettings, Sdk, exporter_settings,
  validate_sampler_ratio, or_default_ratio, create_sampler, new_resource, with_exporter,
  new_tracer_provider, new_meter_provider, new_logger_provider, build_tracer, build_meter,
  build_logger,
}

-- Comparisons of float64 numbers with 0.0 and 1.0
pub record IsOrdered {F : Type 0} (floats : Floats F) : Type 0 where
  pub at_most_zero_cases :
      (x : F)
      → floats.at_most_zero x ≡ true
      → (floats.below_zero x ≡ true) ⊎ (floats.equals_zero x ≡ true)
  pub one_at_least_one : floats.at_least_one floats.one ≡ true

-- A ratio that passes the validation never turns sampling off: 0 counts as 1, and every other ratio
-- samples always or by its value.
pub sampling_never_off :
    {F : Type 0} (floats : Floats F) (ordered : IsOrdered floats) (ratio : F)
    → validate_sampler_ratio floats ratio ≡ none
    → (create_sampler floats (or_default_ratio floats ratio) ≡ always_sample)
      ⊎ (create_sampler floats (or_default_ratio floats ratio) ≡ trace_id_ratio_based ratio)
unfolding validate_sampler_ratio or_default_ratio create_sampler
sampling_never_off floats ordered ratio h = elim (Bool-cases (floats.equals_zero ratio)) [
  | inl zero ↦ inl (ground (arith, ordered))
  | inr other ↦ elim (Bool-cases (floats.at_least_one ratio)) [
    | inl full ↦ inl (ground arith)
    | inr part ↦ inr (ground (arith, ordered.at_most_zero_cases ratio))
  ]
]

module _ {W R F P : Type 0} (sdk : Sdk W R F) (globals : W → P) where
  -- Detecting the resource and creating an exporter do not touch the global providers.
  pub record IsQuiet : Type 0 where
    pub detects : (opts : Options) (w : W) → globals (sdk.detect opts w).1 ≡ globals w
    pub traces : (s : ExporterSettings) (w : W) → globals (sdk.trace_exporter s w).1 ≡ globals w
    pub measures : (s : ExporterSettings) (w : W) → globals (sdk.metric_exporter s w).1 ≡ globals w
    pub logs : (s : ExporterSettings) (w : W) → globals (sdk.log_exporter s w).1 ≡ globals w

  module _ (quiet : IsQuiet) where
    resource_keeps : (opts : Options) (w : W) → globals (new_resource sdk opts w).1 ≡ globals w
    unfolding new_resource
    resource_keeps opts w = ground (arith, quiet.detects opts w)

    failed_keeps :
        {A : Type 0} (create : ExporterSettings → Action W Error ℕ) (opts : Options)
        (build : R → ℕ → W → A × W) (w v : W) (e : Error)
        → ((s : ExporterSettings) (x : W) → globals (create s x).1 ≡ globals x)
        → with_exporter sdk create opts build w ≡ (err e, v)
        → globals v ≡ globals w
    unfolding with_exporter
    failed_keeps create opts build w v e keeps h =
        let first = resource_keeps opts w in
        elim (run_cases (new_resource sdk opts w)) [
          | returns res x q ↦ elim (run_cases (create (exporter_settings opts) x)) [
            | returns exporter y p ↦ absurd (ground arith)
            | fails c y p ↦ ground (arith, first, keeps (exporter_settings opts) x)
            | panics c y p ↦ absurd (ground arith)
          ]
          | fails c x q ↦ ground (arith, first)
          | panics c x q ↦ absurd (ground arith)
        ]

    -- If the SDK's detection and its exporters leave the global providers alone: a provider that
    -- cannot be made, be it for traces, metrics or logs, leaves them alone too.
    pub failed_provider_keeps :
        (floats : Floats F) (ratio : F) (opts : Options) (w v : W) (e : Error)
        → (new_tracer_provider sdk floats ratio opts w ≡ (err e, v))
          ⊎ (new_meter_provider sdk opts w ≡ (err e, v))
          ⊎ (new_logger_provider sdk opts w ≡ (err e, v))
        → globals v ≡ globals w
    unfolding new_tracer_provider new_meter_provider new_logger_provider
    failed_provider_keeps floats ratio opts w v e (inl h) =
        elim (Option-cases (validate_sampler_ratio floats ratio)) [
          | inl good ↦
              failed_keeps sdk.trace_exporter opts (build_tracer sdk floats ratio) w v e
                quiet.traces (rw (new_tracer_provider, good) at h)
          | inr (c, bad) ↦ ground arith
        ]
    failed_provider_keeps floats ratio opts w v e (inr (inl h)) =
        failed_keeps sdk.metric_exporter opts (build_meter sdk opts) w v e quiet.measures h
    failed_provider_keeps floats ratio opts w v e (inr (inr h)) =
        failed_keeps sdk.log_exporter opts (build_logger sdk) w v e quiet.logs h
