-- ===== src/Api/Startup/Ready.antt =====
-- What holds once the start-up has returned.
use finsplitter.Base.{ℕ, String, ◌≡◌, Option, arith}
use finsplitter.Effects.{ok, Action}
use finsplitter.Effects.Laws.{run_cases, returns, fails, panics}
use finsplitter.Errs.{Error}
use finsplitter.Config.{Config, Koanf}
use finsplitter.Config as Settings
use finsplitter.Config.Laws.{IsComplete}
use finsplitter.Telemetry.Startup.{Shutdown, Providers, initialize_open_telemetry}
use finsplitter.Postgres.Pool.{PoolPackage, connection_string, configured}
use finsplitter.Postgres.Migrations.{MigratePackage, IsMigrated}
use finsplitter.Cache.Connect.{RedisPackage, new_redis_client}
use finsplitter.Api.Startup.{Started, or_panic}

or_panic-eq-ok :
    {W A : Type 0} (what : String) (m : Action W Error A) (w v : W) (a : A)
    → or_panic what m w ≡ (ok a, v)
    → m w ≡ (ok a, v)
or_panic-eq-ok what m w v a h = elim (run_cases (m w)) [
  | returns b x q ↦ ground arith
  | fails e x q ↦ absurd (ground arith)
  | panics p x q ↦ absurd (ground arith)
]

module _ {W P S D V M : Type 0} (pools : PoolPackage W P S)
    (migrations : MigratePackage W D V M) where
  -- The pool was opened with the settings of the configuration, and after that the migrations in
  -- the repository were put in place, through the connection string of this pool, in the schema of
  -- the configuration.
  pub record IsOpen (cfg : Settings.Database) (pool : P) (w v : W) : Type 0 where
    pub settings : S
    pub parsed : pools.parse_config (connection_string cfg) ≡ ok settings
    pub connected : W
    pub connects :
        pools.new_with_config (configured pools cfg.pool settings) w ≡ (ok pool, connected)
    pub migrated :
        IsMigrated migrations
          (pools.conn_string pool)
          cfg.schema
          "./internal/gateways/postgres/migrations"
          connected
          v

  module _ {K O C : Type 0} (koanf : Koanf K) (providers : Providers W)
      (redis : RedisPackage W O C) where
    -- What main has when it goes on to build the repositories and the routes: the three steps, one
    -- after the other, from `w` to `v`.
    pub record IsReady (s : Started W P C) (w v : W) : Type 0 where
      pub complete : IsComplete s.config
      pub provider : Option ℕ
      pub observed : W
      pub observes :
          initialize_open_telemetry providers s.config w
          ≡ (ok (provider, s.otel_shutdown), observed)
      pub opened : W
      pub database : IsOpen s.config.db s.pool observed opened
      pub caches : new_redis_client redis s.config.redis_url opened ≡ (ok s.cache, v)

    abbrev main_has : Config → Option (Shutdown W) → P → Option C → Started W P C
    main_has cfg otel_shutdown pool cache = record {
      config = cfg;
      otel_shutdown = otel_shutdown;
      pool = pool;
      cache = cache;
    }
