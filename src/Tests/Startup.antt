-- ===== src/Tests/Startup.antt =====
-- A start-up that succeeds: connection strings stand for pools.
use finsplitter.Base.{ℕ, String, false, none, some, ◌+◌}
use finsplitter.Effects.{ok}
use finsplitter.Postgres.Pool.{PoolPackage, connection_string}
use finsplitter.Postgres.Migrations.{MigratePackage}
use finsplitter.Api.Startup.{Started}
use finsplitter.Tests.Settings.{config}

abbrev pools : PoolPackage ℕ String String
pools = record {
  parse_config = ok;
  assign = λ setting s. s;
  new_with_config = λ s w. (ok s, w + 1);
  conn_string = λ pool. pool;
}

-- Up adds 10 to the world, and the two Closes add 100.
abbrev migrations : MigratePackage ℕ (Unit {0}) (Unit {0}) (Unit {0})
migrations = record {
  open_db = λ conn w. (ok tt, w);
  close_db = λ db w. w + 100;
  with_instance = λ db schema w. (ok tt, w);
  close_driver = λ driver w. w + 100;
  new_instance = λ url driver w. (ok tt, w);
  up = λ m w. (ok tt, w + 10);
  close = λ m w. ((none, none), w);
  is_no_change = λ e. false;
}

abbrev started : Started ℕ String ℕ
started = record {
  config = config;
  otel_shutdown = none;
  pool = connection_string config.db;
  cache = some 0;
}
