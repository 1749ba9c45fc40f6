-- ===== src/Telemetry/Startup/Laws.antt =====
-- What the start-up hands to the providers, and what the stop hook finds.
use finsplitter.Base.{
  ℕ, suc, ◌==◌, ◌≡◌, ◌≢◌, refl, true, false, ◌&&◌, Option, none, List, [], arith, eq_iff,
  Bool-cases, inl, inr, if◌then◌else◌,
}
use finsplitter.Base.Int.{ℤ, pos, negsuc}
use finsplitter.Effects.{ok, panic, lift, ◌>>=◌}
use finsplitter.Effects.Laws.{run_cases, returns, fails, panics, >>=-eq-ok}
use finsplitter.Config.{Config}
use finsplitter.Telemetry.Options.{
  Options, new_options, apply_all, or_default, default_exporter_timeout, default_export_interval,
  default_service_version, default_environment, with_service_name, with_service_version,
  with_environment, with_exporter_url, with_insecure, with_exporter_timeout, with_export_interval,
}
use finsplitter.Telemetry.Startup.{
  Shutdown, Providers, setters, start_logs, start_if, initialize_open_telemetry, stop_telemetry,
}

or_default-nonzero : (t : ℤ) (n : ℕ) → or_default t (pos (suc n)) ≢ pos 0
or_default-nonzero (pos m) n h = ground arith
or_default-nonzero (negsuc m) n h = ground arith

-- The options that a configuration leads to
abbrev pub options_of : Config → Options
options_of cfg = record {
  service_name = cfg.otel.service_name;
  service_version = if cfg.app.version == "" then default_service_version else cfg.app.version;
  environment = if cfg.env.name == "" then default_environment else cfg.env.name;
  exporter_url = cfg.otel.exporter_url;
  insecure = cfg.otel.insecure;
  exporter_timeout = or_default cfg.otel.exporter_timeout default_exporter_timeout;
  export_interval = or_default cfg.otel.export_interval default_export_interval;
}

-- If the options of a configuration are accepted, they are the configured ones, with the defaults
-- for an empty version or environment and for zero durations; the service name and the URL are not
-- empty, and neither duration is zero.
pub new_options-of_config :
    (cfg : Config) (o : Options)
    → new_options (setters cfg) ≡ ok o
    → (o ≡ options_of cfg)
      × (o.service_name ≢ "")
      × (o.exporter_url ≢ "")
      × (o.exporter_timeout ≢ pos 0)
      × (o.export_interval ≢ pos 0)
unfolding new_options apply_all with_service_name with_service_version with_environment
    with_exporter_url with_insecure with_exporter_timeout with_export_interval
new_options-of_config cfg o h = elim (Bool-cases (cfg.otel.service_name == "")) [
  | inl unnamed ↦ absurd (ground arith)
  | inr named ↦ elim (Bool-cases (cfg.otel.exporter_url == "")) [
    | inl nowhere ↦ absurd (ground arith)
    | inr somewhere ↦
        let same : o ≡ options_of cfg = ground arith in
        (
          same,
          ground (arith, eq_iff cfg.otel.service_name ""),
          ground (arith, eq_iff cfg.otel.exporter_url ""),
          rw same (or_default-nonzero cfg.otel.exporter_timeout 9999999999),
          rw same (or_default-nonzero cfg.otel.export_interval 59999999999),
        )
  ]
]

module _ {W : Type 0} (providers : Providers W) (cfg : Config) where
  start_logs-off :
      (opts : Options) (fs : List (Shutdown W)) (w w' : W) (x : Option ℕ × Option (Shutdown W))
      → cfg.otel.enable_logs ≡ false
      → start_logs providers cfg opts fs w ≡ (ok x, w')
      → x.1 ≡ none
  unfolding start_logs
  start_logs-off opts fs w w' x off h = ground arith

  initialize_without_logs :
      (x : Option ℕ × Option (Shutdown W)) (w w' : W)
      → cfg.otel.enabled ≡ true
      → cfg.otel.enable_logs ≡ false
      → initialize_open_telemetry providers cfg w ≡ (ok x, w')
      → x.1 ≡ none
  unfolding initialize_open_telemetry
  initialize_without_logs x w w' on off h =
      elim (run_cases (lift {W = W} (new_options (setters cfg)) w)) [
        | returns opts v e ↦
            let meter = providers.new_meter_provider opts in
            let trace = providers.new_tracer_provider opts in
            let metrics = λ (traced : List (Shutdown W)).
              start_if cfg.otel.enable_metrics meter traced "failed to initialize meter provider" in
            let (traced, u, p, q) =
              >>=-eq-ok
                (start_if cfg.otel.enable_traces trace [] "failed to initialize tracer provider")
                (λ t. metrics t >>= λ m. start_logs providers cfg opts m) v (ground arith) in
            let (metered, y, r, logs) =
              >>=-eq-ok (metrics traced) (λ m. start_logs providers cfg opts m) u q in
            start_logs-off opts metered y w' x off logs
        | fails z v e ↦ absurd (ground arith)
        | panics p v e ↦ absurd (ground arith)
      ]

  -- If telemetry or its logs are disabled and the start-up succeeds, the stop hook panics.
  pub stop_telemetry_panics :
      (x : Option ℕ × Option (Shutdown W)) (w w' v : W)
      → (cfg.otel.enabled && cfg.otel.enable_logs) ≡ false
      → initialize_open_telemetry providers cfg w ≡ (ok x, w')
      → stop_telemetry x.1 v ≡ (panic "invalid memory address or nil pointer dereference", v)
  unfolding initialize_open_telemetry stop_telemetry
  stop_telemetry_panics x w w' v off h = elim (Bool-cases cfg.otel.enabled) [
    | inl on ↦ let nothing = initialize_without_logs x w w' on (ground arith) h in rw nothing refl
    | inr disabled ↦ let nothing : x.1 ≡ none = ground arith in rw nothing refl
  ]
