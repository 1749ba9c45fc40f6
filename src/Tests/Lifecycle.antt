-- ===== src/Tests/Lifecycle.antt =====
-- Stopping the server. The world is a number whose digits are the calls, in their order.
use finsplitter.Base.{
  ℕ, String, ◌≡◌, ◌↔◌, refl, true, false, ◌&&◌, some, none, Option, [], ◌∷◌, ◌+◌, ◌*◌, arith,
}
use finsplitter.Effects.{ok, panic}
use finsplitter.Config.{Config}
use finsplitter.Cache.Connect.{RedisPackage, close}
use finsplitter.Telemetry.Options.{
  new_options, apply_all, with_service_name, with_service_version, with_environment,
  with_exporter_url, with_insecure, with_exporter_timeout, with_export_interval,
}
use finsplitter.Telemetry.Startup.{
  Shutdown, Providers, run_all, shutdown, start_logs, initialize_open_telemetry, stop_telemetry,
}
use finsplitter.Api.Lifecycle.{Process, log, stop_rest, stop_server, closing_cache, on_stop}
use finsplitter.Api.Lifecycle.Calm.{HaveCalmShutdowns, IsCalm}
use finsplitter.Api.Lifecycle.Stop.{IsCacheClosed, on_stop_iff}
use finsplitter.Tests.Settings.{config, telemetry}

abbrev called : ℕ → ℕ → ℕ
called d w = w * 10 + d

abbrev process : Process ℕ
process = record {
  listen_and_serve = λ w. (ok tt, w);
  shutdown_server = λ w. (ok tt, called 2 w);
  start_timeout = called 1;
  cancel = called 7;
  write_line = λ line w. called 4 w;
  close_pool = called 6;
}

abbrev pub redis : RedisPackage ℕ String ℕ
redis = record {
  parse_url = ok;
  new_client = λ o w. (0, w);
  instrument_tracing = λ c w. (ok tt, w);
  instrument_metrics = λ c w. (ok tt, w);
  close_client = λ c w. (ok tt, called 5 w);
  ping_client = λ c w. (ok tt, w);
}

abbrev stop_provider : Shutdown ℕ
stop_provider w = (ok tt, called 3 w)

abbrev pub providers : Providers ℕ
providers = record {
  new_tracer_provider = λ o w. (ok stop_provider, w);
  new_meter_provider = λ o w. (ok stop_provider, w);
  new_logger_provider = λ o w. (ok (1, stop_provider), w);
}

abbrev all_telemetry : Config
all_telemetry = record config { otel = record telemetry { enable_logs = true } }

abbrev started : Option ℕ × Option (Shutdown ℕ)
unfolding shutdown
started = (some 1, some (shutdown (stop_provider ∷ stop_provider ∷ stop_provider ∷ [])))

-- The timeout, the server, three providers, the last line, the cache, the pool, the cancellation
stop_order : on_stop process redis (some 0) started.1 0 ≡ (ok tt, 123334567)
unfolding on_stop stop_server stop_rest stop_telemetry log closing_cache shutdown run_all close
stop_order = refl

-- Without telemetry: the last line is missing.
stop_order_nil :
    on_stop process redis (some 0) none 0
    ≡ (panic "invalid memory address or nil pointer dereference", 12567)
unfolding on_stop stop_server stop_rest stop_telemetry log closing_cache close
stop_order_nil = refl

providers-HaveCalmShutdowns : HaveCalmShutdowns providers
providers-HaveCalmShutdowns = record {
  tracer =
      λ o w v f h p a b q. let same : f ≡ stop_provider = ground arith in absurd (ground arith);
  meter = λ o w v f h p a b q. let same : f ≡ stop_provider = ground arith in absurd (ground arith);
  logger =
      λ o w v n f h p a b q. let same : f ≡ stop_provider = ground arith in absurd (ground arith);
}

close_redis-IsCalm : (c : ℕ) → IsCalm (close redis c)
unfolding close
close_redis-IsCalm c p w v h = absurd (ground arith)

on_stop_iff_example :
    (((on_stop process redis (some 0) started.1 0).0 ≡ ok tt) ↔ ((true && true) ≡ true))
    × (((on_stop process redis (some 0) started.1 0).0
          ≡ panic "invalid memory address or nil pointer dereference")
        ↔ ((true && true) ≡ false))
    × ((y : ℕ) × IsCacheClosed redis (some 0) y
        × ((on_stop process redis (some 0) started.1 0).1 ≡ called 7 (called 6 y)))
unfolding initialize_open_telemetry start_logs new_options apply_all with_service_name
    with_service_version with_environment with_exporter_url with_insecure with_exporter_timeout
    with_export_interval shutdown
on_stop_iff_example =
    on_stop_iff process (λ p w v h. absurd (ground arith)) redis close_redis-IsCalm providers
      providers-HaveCalmShutdowns all_telemetry started 0 0 (some 0) 0 refl
