-- ===== src/Tests/Settings.antt =====
-- A configuration.
use finsplitter.Base.{ℕ, ◌≡◌, refl, true, false, ◌+◌}
use finsplitter.Base.Int.{pos}
use finsplitter.Effects.{ok}
use finsplitter.Config.{Config, OpenTelemetry, Koanf, missing_names, validate, set_all, load_env}
use finsplitter.Config.Laws.{IsComplete, load_env-IsComplete}

abbrev pub telemetry : OpenTelemetry
telemetry = record {
  enabled = true;
  service_name = "finsplitter";
  exporter_url = "http://localhost:4318";
  insecure = true;
  enable_traces = true;
  enable_metrics = true;
  enable_logs = false;
  exporter_timeout = pos 0;
  export_interval = pos 5000000000;
}

abbrev pub config : Config
config = record {
  app = record {
    build_time = "now";
    build_tag = "v1";
    build_commit = "c0ffee";
    port = pos 3033;
    name = "finsplitter";
    version = "";
  };
  env = record { name = "local"; log_format = "text" };
  db = record {
    user = "u";
    password = "p";
    host = "h";
    port = pos 5432;
    db_name = "d";
    ssl_mode = "require";
    schema = "public";
    pool = record {
      max_conns = pos 10;
      min_conns = pos 1;
      max_conn_lifetime = pos 3600000000000;
      max_conn_idle_time = pos 600000000000;
      health_check_period = pos 60000000000;
      connect_timeout = pos 15000000000;
    };
  };
  redis_url = "redis://localhost:6379/0";
  otel = telemetry;
  logto = record {
    oidc_endpoint = "";
    oidc_issuer = "";
    management_base_url = "";
    mgmt_client_id = "";
    mgmt_client_secret = "";
    mgmt_api_resource = "";
    app_client_id = "";
    app_client_secret = "";
    device_app_client_id = "";
  };
}

-- a store that counts the keys that were set, and always reads the same configuration
abbrev pub koanf : Koanf ℕ
koanf = record {
  empty = 0;
  set = λ key value k. ok (k + 1);
  load_env = λ f k. ok k;
  unmarshal = λ k. ok config;
}

load_env-IsComplete_example :
    IsComplete config
    × (config.app.build_tag ≡ "v1")
    × (config.app.build_commit ≡ "c0ffee")
    × (config.app.build_time ≡ "now")
unfolding load_env set_all validate missing_names
load_env-IsComplete_example = load_env-IsComplete koanf (λ s. s) "v1" "c0ffee" "now" config refl
