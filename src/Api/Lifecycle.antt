-- ===== src/Api/Lifecycle.antt =====
-- cmd/api/main.go: the two hooks of the command line, which start and stop the server.
pub mod Calm
pub mod Stop
use finsplitter.Base.{String, Option, none, some}
use finsplitter.Effects.{Action, pure, catch, deferring, deferring_call}
use finsplitter.Errs.{Error}
use finsplitter.Telemetry.Startup.{Shutdown, stop_telemetry}
use finsplitter.Cache.Connect.{RedisPackage, close}

-- The log lines of the hooks
pub data Line : Type 0 where
  starting : Line
  not_started : Error → Line
  not_stopped : Error → Line
  telemetry_not_stopped : Error → Line
  stopped : Line

-- What main gets from net/http, context, slog and pgxpool: ListenAndServe and Shutdown of the server,
-- the timeout of the stop hook and its cancellation, the logger and Close of the pool.
pub record Process (W : Type 0) : Type 0 where
  pub listen_and_serve : Action W Error (Unit {0})
  pub shutdown_server : Action W Error (Unit {0})
  pub start_timeout : W → W
  pub cancel : W → W
  pub write_line : Line → W → W
  pub close_pool : W → W

module _ {W O C : Type 0} (redis : RedisPackage W O C) where
  -- `if redisClient != nil { defer redisClient.Close() }`
  unfoldable pub closing_cache : Option C → Action W Error (Unit {0}) → Action W Error (Unit {0})
  closing_cache none body = body
  closing_cache (some c) body = deferring_call (close redis c) body

module _ {W : Type 0} (process : Process W) where
  unfoldable pub log : Line → Action W Error (Unit {0})
  log line w = pure tt (process.write_line line w)

  -- the OnStart hook
  unfoldable pub on_start : Action W Error (Unit {0})
  unfolding log
  on_start w =
      catch process.listen_and_serve pure (λ e. log (not_started e)) (process.write_line starting w)

  -- the call of otelShutdown in the OnStop hook, and the lines after it
  unfoldable pub stop_rest : Option (Shutdown W) → Action W Error (Unit {0})
  unfolding log
  stop_rest otel_shutdown =
      catch (stop_telemetry otel_shutdown) (λ _. log stopped)
        (λ e w. log stopped (process.write_line (telemetry_not_stopped e) w))

  unfoldable pub stop_server : Option (Shutdown W) → Action W Error (Unit {0})
  unfolding stop_rest
  stop_server otel_shutdown =
      catch process.shutdown_server (λ _. stop_rest otel_shutdown)
        (λ e w. stop_rest otel_shutdown (process.write_line (not_stopped e) w))

  module _ {O C : Type 0} (redis : RedisPackage W O C) where
    -- the OnStop hook: the deferred calls run last to first
    unfoldable pub on_stop : Option C → Option (Shutdown W) → Action W Error (Unit {0})
    unfolding closing_cache stop_server
    on_stop client otel_shutdown w =
        deferring process.cancel
          (deferring process.close_pool (closing_cache redis client (stop_server otel_shutdown)))
          (process.start_timeout w)
