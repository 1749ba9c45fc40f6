-- ===== src/Api/Startup.antt =====
-- cmd/api/main.go: the start-up, up to the connection to the cache. A step that fails is a panic,
-- except that main goes on without a cache. The logger is left out.
pub mod Ready
use finsplitter.Base.{ℕ, String, ◌+++◌, Option, none, some}
use finsplitter.Effects.{Result, ok, err, panic, Action, pure, fail, lift, catch, ◌>>=◌}
use finsplitter.Errs.{Error, prefixed, message}
use finsplitter.Config.{Config, Koanf, load_env}
use finsplitter.Config as Settings
use finsplitter.Telemetry.Startup.{Shutdown, Providers, initialize_open_telemetry}
use finsplitter.Postgres.Pool.{PoolPackage, new_pool_config}
use finsplitter.Postgres.Migrations.{MigratePackage, run_migrations}
use finsplitter.Cache.Connect.{RedisPackage, new_redis_client}

-- `if err != nil { panic(fmt.Errorf(what + ": %w", err)) }`
abbrev pub or_panic : {W A : Type 0} → String → Action W Error A → Action W Error A
or_panic what m = catch m pure (λ e w. (panic (what +++ ": " +++ message e), w))

-- What the rest of main works with
pub record Started (W P C : Type 0) : Type 0 where
  pub config : Config
  pub otel_shutdown : Option (Shutdown W)
  pub pool : P
  pub cache : Option C

module _ {W P S : Type 0} (pools : PoolPackage W P S) where
  module _ {D V M : Type 0} (migrations : MigratePackage W D V M) where
    unfoldable pub open_database : Settings.Database → Action W Error P
    unfolding new_pool_config
    open_database cfg = or_panic "failed to create pool config" (new_pool_config pools cfg) >>= λ s.
        or_panic "failed to connect to database" (pools.new_with_config s) >>= λ pool.
        or_panic "failed to run database migrations" (
          run_migrations migrations (pools.conn_string pool) cfg.schema
            "./internal/gateways/postgres/migrations")
        >>= λ _. pure pool

  module _ {K D V M O C : Type 0} (koanf : Koanf K) (providers : Providers W)
      (migrations : MigratePackage W D V M) (redis : RedisPackage W O C) where
    unfoldable pub start_with : Config → Action W Error (Started W P C)
    unfolding open_database
    start_with cfg =
        or_panic "failed to initialize OpenTelemetry" (initialize_open_telemetry providers cfg)
        >>= λ (provider, otel_shutdown). open_database migrations cfg.db >>= λ pool.
            new_redis_client redis cfg.redis_url >>= λ cache.
            pure
              (record { config = cfg; otel_shutdown = otel_shutdown; pool = pool; cache = cache })

    -- `if cfg == nil { panic(...) }`
    abbrev present : Option Config → Action W Error Config
    present none w = (panic "failed to load config", w)
    present (some cfg) w = pure cfg w

    unfoldable pub start_up :
        (to_upper : String → String) (build_tag build_commit build_time : String)
        → Action W Error (Started W P C)
    unfolding start_with
    start_up to_upper build_tag build_commit build_time =
        lift (load_env koanf to_upper build_tag build_commit build_time) >>= λ loaded.
        present loaded >>= start_with
