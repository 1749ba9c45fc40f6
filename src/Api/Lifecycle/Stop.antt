-- ===== src/Api/Lifecycle/Stop.antt =====
-- How the stop hook ends, after a start-up with telemetry on or off.
use finsplitter.Base.{
  ℕ, String, ◌≡◌, ◌↔◌, refl, true, false, ◌&&◌, Option, some, none, arith, Bool-cases, inl, inr,
}
use finsplitter.Effects.{Result, ok, err, panic, Action}
use finsplitter.Effects.Laws.{run_cases, returns, fails, panics}
use finsplitter.Errs.{Error}
use finsplitter.Config.{Config}
use finsplitter.Cache.Connect.{RedisPackage, close}
use finsplitter.Telemetry.Startup.{Shutdown, Providers, initialize_open_telemetry, stop_telemetry}
use finsplitter.Telemetry.Startup.Laws.{stop_telemetry_panics}
use finsplitter.Api.Lifecycle.{
  Process, not_stopped, log, stop_rest, stop_server, closing_cache, on_stop,
}
use finsplitter.Api.Lifecycle.Calm.{IsCalm, HaveCalmShutdowns, initialize-IsCalm}

abbrev nil_call : String
nil_call = "invalid memory address or nil pointer dereference"

module _ {W O C : Type 0} (redis : RedisPackage W O C) where
  -- The cache client, if there is one, has just been closed.
  abbrev pub IsCacheClosed : Option C → W → Type 0
  IsCacheClosed none v = Unit {0}
  IsCacheClosed (some c) v = (r : Result Error (Unit {0})) × (w : W) × (close redis c w ≡ (r, v))

  module _ (closes : (c : C) → IsCalm (close redis c)) where
    closing_cache-result :
        (client : Option C) (body : Action W Error (Unit {0})) (w : W)
        → (closing_cache redis client body w).0 ≡ (body w).0
    unfolding closing_cache
    closing_cache-result none body w = refl
    closing_cache-result (some c) body w = elim (run_cases (close redis c (body w).1)) [
      | returns u v p ↦ ground arith
      | fails e v p ↦ ground arith
      | panics q v p ↦ absurd (closes c q (body w).1 v p)
    ]

    closing_cache-IsCacheClosed :
        (client : Option C) (body : Action W Error (Unit {0})) (w : W)
        → IsCacheClosed client (closing_cache redis client body w).1
    unfolding closing_cache
    closing_cache-IsCacheClosed none body w = tt
    closing_cache-IsCacheClosed (some c) body w = elim (run_cases (close redis c (body w).1)) [
      | returns u v p ↦ (ok u, (body w).1, ground arith)
      | fails e v p ↦ (err e, (body w).1, ground arith)
      | panics q v p ↦ absurd (closes c q (body w).1 v p)
    ]

module _ {W : Type 0} (process : Process W) (stops : IsCalm process.shutdown_server) where
  stop_server-ok : (f : Shutdown W) (w : W) → IsCalm f → (stop_server process (some f) w).0 ≡ ok tt
  unfolding stop_server stop_rest stop_telemetry log
  stop_server-ok f w calm = elim (run_cases (process.shutdown_server w)) [
    | returns u v p ↦ elim (run_cases (f v)) [
      | returns u' x q ↦ ground arith
      | fails e x q ↦ ground arith
      | panics c x q ↦ absurd (calm c v x q)
    ]
    | fails e v p ↦ elim (run_cases (f (process.write_line (not_stopped e) v))) [
      | returns u' x q ↦ ground arith
      | fails c x q ↦ ground arith
      | panics c x q ↦ absurd (calm c (process.write_line (not_stopped e) v) x q)
    ]
    | panics c v p ↦ absurd (stops c w v p)
  ]

  stop_server-panics :
      (otel_shutdown : Option (Shutdown W)) (w : W)
      → ((v : W) → stop_telemetry otel_shutdown v ≡ (panic nil_call, v))
      → (stop_server process otel_shutdown w).0 ≡ panic nil_call
  unfolding stop_server stop_rest
  stop_server-panics otel_shutdown w nil = elim (run_cases (process.shutdown_server w)) [
    | returns u v p ↦ ground (arith, nil v)
    | fails e v p ↦ ground (arith, nil (process.write_line (not_stopped e) v))
    | panics c v p ↦ absurd (stops c w v p)
  ]

  module _ {O C : Type 0} (redis : RedisPackage W O C)
      (closes : (c : C) → IsCalm (close redis c)) where
    -- After a start-up that succeeded, the stop hook ends without a panic exactly if telemetry and
    -- its logs are enabled, and panics for a nil function otherwise; either way the cache client,
    -- if there is one, has been closed, then the pool, and the timeout has been cancelled last. It
    -- is assumed that stopping the server, closing the cache and shutting a provider down never
    -- panic.
    pub on_stop_iff :
        (providers : Providers W) (calm : HaveCalmShutdowns providers) (cfg : Config)
        (x : Option ℕ × Option (Shutdown W)) (w w' : W) (client : Option C) (v : W)
        → initialize_open_telemetry providers cfg w ≡ (ok x, w')
        → (((on_stop process redis client x.1 v).0 ≡ ok tt)
            ↔ ((cfg.otel.enabled && cfg.otel.enable_logs) ≡ true))
          × (((on_stop process redis client x.1 v).0 ≡ panic nil_call)
              ↔ ((cfg.otel.enabled && cfg.otel.enable_logs) ≡ false))
          × ((y : W) × IsCacheClosed redis client y
              × ((on_stop process redis client x.1 v).1 ≡ process.cancel (process.close_pool y)))
    unfolding on_stop
    on_stop_iff providers calm cfg x w w' client v h =
        let body = stop_server process x.1 in
        let start = process.start_timeout v in
        let same = closing_cache-result redis closes client body start in
        let closed = closing_cache-IsCacheClosed redis closes client body start in
        elim (Bool-cases (cfg.otel.enabled && cfg.otel.enable_logs)) [
          | inl on ↦
              let (f, is, quiet) = initialize-IsCalm providers calm cfg x w w' on h in
              let good = stop_server-ok f start quiet in
              (
                ((λ _. on), (λ _. ground arith)),
                ((λ bad. absurd (ground arith)), (λ off. absurd (ground arith))),
                (_, closed, refl),
              )
          | inr off ↦
              let bad =
                stop_server-panics x.1 start
                  (λ u. stop_telemetry_panics providers cfg x w w' u off h) in
              (
                ((λ good. absurd (ground arith)), (λ on. absurd (ground arith))),
                ((λ _. off), (λ _. ground arith)),
                (_, closed, refl),
              )
        ]
