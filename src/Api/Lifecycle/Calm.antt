-- ===== src/Api/Lifecycle/Calm.antt =====
-- What initializeOpenTelemetry of cmd/api/main.go returns, where shutting a provider down never
-- panics.
use finsplitter.Base.{
  ℕ, String, ◌≡◌, ◌≢◌, true, ◌&&◌, Bool, Option, some, none, List, [], ◌∷◌, ◌++◌, arith, Bool-cases,
  inl, inr,
}
use finsplitter.Effects.{ok, panic, Action, lift, ◌>>=◌}
use finsplitter.Effects.Laws.{run_cases, returns, fails, panics, >>=-eq-ok}
use finsplitter.Errs.{Error}
use finsplitter.Config.{Config}
use finsplitter.Telemetry.Options.{Options, new_options}
use finsplitter.Telemetry.Startup.{
  Shutdown, Providers, setters, run_all, shutdown, start_logs, start_if, initialize_open_telemetry,
  join_error,
}

-- A call that never panics
abbrev pub IsCalm : {W E A : Type 0} → Action W E A → Type 0
IsCalm m = (p : String) (w v : _) → m w ≢ (panic p, v)

module _ {W : Type 0} where
  abbrev pub AreCalm : List (Shutdown W) → Type 0
  AreCalm [] = Unit {0}
  AreCalm (f ∷ fs) = IsCalm f × AreCalm fs

  append-AreCalm :
      (fs : List (Shutdown W)) (f : Shutdown W) → AreCalm fs → IsCalm f → AreCalm (fs ++ (f ∷ []))
  append-AreCalm [] f calm last = (last, tt)
  append-AreCalm (g ∷ fs) f (first, rest) last = (first, append-AreCalm fs f rest last)

  run_all-IsCalm :
      (before : Option Error) (fs : List (Shutdown W)) → AreCalm fs → IsCalm (run_all before fs)
  unfolding run_all
  run_all-IsCalm none [] calm p w v h = absurd (ground arith)
  run_all-IsCalm (some e) [] calm p w v h = absurd (ground arith)
  run_all-IsCalm before (f ∷ fs) (first, rest) p w v h = elim (run_cases (f w)) [
    | returns u x q ↦ run_all-IsCalm before fs rest p x v (ground arith)
    | fails e x q ↦ run_all-IsCalm (some (join_error before e)) fs rest p x v (ground arith)
    | panics c x q ↦ first c w x q
  ]

-- No shutdown function of the three providers panics.
pub record HaveCalmShutdowns {W : Type 0} (providers : Providers W) : Type 0 where
  pub tracer :
      (opts : Options) (w v : W) (f : Shutdown W)
      → providers.new_tracer_provider opts w ≡ (ok f, v)
      → IsCalm f
  pub meter :
      (opts : Options) (w v : W) (f : Shutdown W)
      → providers.new_meter_provider opts w ≡ (ok f, v)
      → IsCalm f
  pub logger :
      (opts : Options) (w v : W) (provider : ℕ) (f : Shutdown W)
      → providers.new_logger_provider opts w ≡ (ok (provider, f), v)
      → IsCalm f

module _ {W : Type 0} where
  start_if-AreCalm :
      (enabled : Bool) (start : Action W Error (Shutdown W)) (fs gs : List (Shutdown W))
      (what : String) (w v : W)
      → ((f : Shutdown W) (x : W) → start w ≡ (ok f, x) → IsCalm f)
      → AreCalm fs
      → start_if enabled start fs what w ≡ (ok gs, v)
      → AreCalm gs
  unfolding shutdown
  start_if-AreCalm enabled start fs gs what w v starts calm h = elim (Bool-cases enabled) [
    | inl on ↦ elim (run_cases (start w)) [
      | returns f x q ↦
          let same : gs ≡ fs ++ (f ∷ []) = ground arith in
          rw same (append-AreCalm fs f calm (starts f x q))
      | fails e x q ↦ elim (run_cases (run_all none fs x)) [
        | returns u y r ↦ absurd (ground arith)
        | fails c y r ↦ absurd (ground arith)
        | panics c y r ↦ absurd (ground arith)
      ]
      | panics c x q ↦ absurd (ground arith)
    ]
    | inr off ↦ let same : gs ≡ fs = ground arith in rw same calm
  ]

  module _ (providers : Providers W) (calm : HaveCalmShutdowns providers) (cfg : Config) where
    start_logs-IsCalm :
        (opts : Options) (fs : List (Shutdown W)) (x : Option ℕ × Option (Shutdown W)) (w v : W)
        → cfg.otel.enable_logs ≡ true
        → AreCalm fs
        → start_logs providers cfg opts fs w ≡ (ok x, v)
        → (f : Shutdown W) × (x.1 ≡ some f) × IsCalm f
    unfolding start_logs shutdown
    start_logs-IsCalm opts fs x w v on earlier h =
        elim (run_cases (providers.new_logger_provider opts w)) [
          | returns (provider, f) y q ↦ (
            shutdown (fs ++ (f ∷ [])),
            ground arith,
            run_all-IsCalm none (fs ++ (f ∷ []))
                (append-AreCalm fs f earlier (calm.logger opts w y provider f q)),
          )
          | fails e y q ↦ elim (run_cases (run_all none fs y)) [
            | returns u z r ↦ absurd (ground arith)
            | fails c z r ↦ absurd (ground arith)
            | panics c z r ↦ absurd (ground arith)
          ]
          | panics c y q ↦ absurd (ground arith)
        ]

    pub initialize-IsCalm :
        (x : Option ℕ × Option (Shutdown W)) (w w' : W)
        → (cfg.otel.enabled && cfg.otel.enable_logs) ≡ true
        → initialize_open_telemetry providers cfg w ≡ (ok x, w')
        → (f : Shutdown W) × (x.1 ≡ some f) × IsCalm f
    unfolding initialize_open_telemetry
    initialize-IsCalm x w w' both h =
        let on : cfg.otel.enabled ≡ true = ground (arith, Bool-cases cfg.otel.enabled) in
        let logs : cfg.otel.enable_logs ≡ true = ground (arith, Bool-cases cfg.otel.enabled) in
        elim (run_cases (lift {W = W} (new_options (setters cfg)) w)) [
          | returns opts v e ↦
              let trace = providers.new_tracer_provider opts in
              let meter = providers.new_meter_provider opts in
              let metrics = λ (traced : List (Shutdown W)).
                start_if cfg.otel.enable_metrics meter traced
                  "failed to initialize meter provider" in
              let (traced, u, p, q) =
                >>=-eq-ok
                  (start_if cfg.otel.enable_traces trace [] "failed to initialize tracer provider")
                  (λ t. metrics t >>= λ m. start_logs providers cfg opts m) v (ground arith) in
              let (metered, y, r, started) =
                >>=-eq-ok (metrics traced) (λ m. start_logs providers cfg opts m) u q in
              let first =
                start_if-AreCalm cfg.otel.enable_traces trace [] traced
                  "failed to initialize tracer provider" v u (λ f z. calm.tracer opts v z f) tt p in
              let second =
                start_if-AreCalm cfg.otel.enable_metrics meter traced metered
                  "failed to initialize meter provider" u y (λ f z. calm.meter opts u z f) first
                  r in
              start_logs-IsCalm opts metered x y w' logs second started
          | fails z v e ↦ absurd (ground arith)
          | panics p v e ↦ absurd (ground arith)
        ]
