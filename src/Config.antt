-- ===== src/Config.antt =====
-- internal/config/config.go: defaults, environment variables and validation. The package koanf is a
-- parameter.
pub mod Laws
use finsplitter.Base.{
  ℕ, String, ◌==◌, Bool, true, false, Option, none, some, List, [], ◌∷◌, ◌++◌, lookup, get_or,
  if◌then◌else◌,
}
use finsplitter.Base.Int.{ℤ}
use finsplitter.Effects.{Result, ok, err, panic}
use finsplitter.Errs.{Error, missing_env}

pub record Application : Type 0 where
  pub build_time : String
  pub build_tag : String
  pub build_commit : String
  pub port : ℤ
  pub name : String
  pub version : String

pub record Environment : Type 0 where
  pub name : String
  pub log_format : String

pub record PoolConfig : Type 0 where
  pub max_conns : ℤ
  pub min_conns : ℤ
  pub max_conn_lifetime : ℤ
  pub max_conn_idle_time : ℤ
  pub health_check_period : ℤ
  pub connect_timeout : ℤ

pub record Database : Type 0 where
  pub user : String
  pub password : String
  pub host : String
  pub port : ℤ
  pub db_name : String
  pub ssl_mode : String
  pub schema : String
  pub pool : PoolConfig

pub record Logto : Type 0 where
  pub oidc_endpoint : String
  pub oidc_issuer : String
  pub management_base_url : String
  pub mgmt_client_id : String
  pub mgmt_client_secret : String
  pub mgmt_api_resource : String
  pub app_client_id : String
  pub app_client_secret : String
  pub device_app_client_id : String

-- Durations are in nanoseconds. The sampling ratio, a floating-point number, is left out.
pub record OpenTelemetry : Type 0 where
  pub enabled : Bool
  pub service_name : String
  pub exporter_url : String
  pub insecure : Bool
  pub enable_traces : Bool
  pub enable_metrics : Bool
  pub enable_logs : Bool
  pub exporter_timeout : ℤ
  pub export_interval : ℤ

pub record Config : Type 0 where
  pub app : Application
  pub env : Environment
  pub db : Database
  pub redis_url : String
  pub otel : OpenTelemetry
  pub logto : Logto

pub data Value : Type 0 where
  text : String → Value
  int : ℕ → Value
  bool : Bool → Value
  float : String → Value

-- The map of the source, whose order does not matter: its keys differ.
abbrev pub default_config : List (String × Value)
default_config =
    ("app.port", int 3033)
    ∷ ("app.name", text "finsplitter")
    ∷ ("app.version", text "dev")
    ∷ ("env.name", text "local")
    ∷ ("env.log_format", text "text")
    ∷ ("db.port", int 5432)
    ∷ ("db.ssl_mode", text "require")
    ∷ ("db.schema", text "public")
    ∷ ("db.pool.max_conns", int 10)
    ∷ ("db.pool.min_conns", int 1)
    ∷ ("db.pool.max_conn_lifetime", text "1h")
    ∷ ("db.pool.max_conn_idle_time", text "10m")
    ∷ ("db.pool.health_check_period", text "1m")
    ∷ ("db.pool.connect_timeout", text "15s")
    ∷ ("redis.url", text "redis://localhost:6379/0")
    ∷ ("logto.oidc_endpoint", text "http://localhost:3001/oidc")
    ∷ ("logto.issuer", text "http://localhost:3001/oidc")
    ∷ ("logto.endpoint", text "http://localhost:3001")
    ∷ ("otel.enabled", bool false)
    ∷ ("otel.service_name", text "finsplitter")
    ∷ ("otel.exporter_otlp_endpoint", text "http://localhost:4318")
    ∷ ("otel.exporter_insecure", bool true)
    ∷ ("otel.enable_traces", bool true)
    ∷ ("otel.enable_metrics", bool true)
    ∷ ("otel.enable_logs", bool true)
    ∷ ("otel.sampler_ratio", float "1.0")
    ∷ ("otel.exporter_timeout", text "30s")
    ∷ ("otel.export_interval", text "5s")
    ∷ []

abbrev pub env_keys : List (String × String)
env_keys =
    ("APP_PORT", "app.port")
    ∷ ("APP_NAME", "app.name")
    ∷ ("APP_VERSION", "app.version")
    ∷ ("ENV_NAME", "env.name")
    ∷ ("LOG_FORMAT", "env.log_format")
    ∷ ("PG_USER", "db.user")
    ∷ ("PG_PASS", "db.password")
    ∷ ("PG_HOST", "db.host")
    ∷ ("PG_PORT", "db.port")
    ∷ ("PG_DB", "db.db_name")
    ∷ ("PG_SSL_MODE", "db.ssl_mode")
    ∷ ("PG_SCHEMA", "db.schema")
    ∷ ("PG_MAX_CONNS", "db.pool.max_conns")
    ∷ ("PG_MIN_CONNS", "db.pool.min_conns")
    ∷ ("PG_MAX_CONN_LIFETIME", "db.pool.max_conn_lifetime")
    ∷ ("PG_MAX_CONN_IDLE_TIME", "db.pool.max_conn_idle_time")
    ∷ ("PG_HEALTH_CHECK_PERIOD", "db.pool.health_check_period")
    ∷ ("PG_CONNECT_TIMEOUT", "db.pool.connect_timeout")
    ∷ ("REDIS_URL", "redis.url")
    ∷ ("LOGTO_OIDC_ENDPOINT", "logto.oidc_endpoint")
    ∷ ("LOGTO_ISSUER", "logto.issuer")
    ∷ ("LOGTO_ENDPOINT", "logto.endpoint")
    ∷ ("LOGTO_MGMT_CLIENT_ID", "logto.mgmt_client_id")
    ∷ ("LOGTO_MGMT_CLIENT_SECRET", "logto.mgmt_client_secret")
    ∷ ("LOGTO_MGMT_API_RESOURCE", "logto.mgmt_api_resource")
    ∷ ("LOGTO_APP_CLIENT_ID", "logto.app_client_id")
    ∷ ("LOGTO_APP_CLIENT_SECRET", "logto.app_client_secret")
    ∷ ("LOGTO_DEVICE_APP_CLIENT_ID", "logto.device_app_client_id")
    ∷ ("OTEL_ENABLED", "otel.enabled")
    ∷ ("OTEL_SERVICE_NAME", "otel.service_name")
    ∷ ("OTEL_EXPORTER_OTLP_ENDPOINT", "otel.exporter_otlp_endpoint")
    ∷ ("OTEL_EXPORTER_INSECURE", "otel.exporter_insecure")
    ∷ ("OTEL_ENABLE_TRACES", "otel.enable_traces")
    ∷ ("OTEL_ENABLE_METRICS", "otel.enable_metrics")
    ∷ ("OTEL_ENABLE_LOGS", "otel.enable_logs")
    ∷ ("OTEL_SAMPLER_RATIO", "otel.sampler_ratio")
    ∷ ("OTEL_EXPORTER_TIMEOUT", "otel.exporter_timeout")
    ∷ ("OTEL_EXPORT_INTERVAL", "otel.export_interval")
    ∷ []

-- `to_upper` is strings.ToUpper
unfoldable pub env_key_to_koanf_key : (to_upper : String → String) → String → String
env_key_to_koanf_key to_upper env_key = get_or (lookup (to_upper env_key) env_keys) ""

abbrev pub need : String → String → List String
need value name = if value == "" then name ∷ [] else []

-- the names that `validate` appends to `missing`
unfoldable pub missing_names : Config → List String
missing_names c =
    need c.db.user "PG_USER"
    ++ need c.db.password "PG_PASS"
    ++ need c.db.host "PG_HOST"
    ++ need c.db.db_name "PG_DB"

abbrev error_of : List String → Option Error
error_of [] = none
error_of (name ∷ names) = some (missing_env (name ∷ names))

unfoldable pub validate : Config → Option Error
unfolding missing_names
validate c = error_of (missing_names c)

-- koanf with its environment provider: `load_env` applies the function to every variable of the
-- environment and sets what it returns, unless the key is empty.
pub record Koanf (K : Type 0) : Type 0 where
  pub empty : K
  pub set : String → Value → K → Result Error K
  pub load_env : (String → String → String × String) → K → Result Error K
  pub unmarshal : K → Result Error Config

-- An error is logged and ends the loading, with nil in place of a configuration.
abbrev pub then_load :
    {A B : Type 0} → Result Error A → (A → Result Error (Option B)) → Result Error (Option B)
then_load (ok a) f = f a
then_load (err _) f = ok none
then_load (panic p) f = panic p

abbrev pub transform : (to_upper : String → String) → String → String → String × String
transform to_upper env_key value =
    let key = env_key_to_koanf_key to_upper env_key in if key == "" then ("", "") else (key, value)

abbrev pub with_build : String → String → String → Config → Config
with_build build_tag build_commit build_time c = record c {
  app = record c.app {
    build_commit = build_commit;
    build_tag = build_tag;
    build_time = build_time;
  };
}

abbrev pub checked : Config → Result Error (Option Config)
checked c = elim (validate c) as (λ _. Result Error (Option Config)) [
  | none ↦ ok (some c)
  | some _ ↦ ok none
]

module _ {K : Type 0} (koanf : Koanf K) where
  unfoldable pub set_all : List (String × Value) → K → Result Error K
  set_all [] k = ok k
  set_all ((key, value) ∷ rest) k = elim (koanf.set key value k) as (λ _. Result Error K) [
    | ok k' ↦ set_all rest k'
    | err e ↦ err e
    | panic p ↦ panic p
  ]

  -- LoadEnv; `ok none` is nil
  unfoldable pub load_env :
      (to_upper : String → String) (build_tag build_commit build_time : String)
      → Result Error (Option Config)
  unfolding set_all validate env_key_to_koanf_key
  load_env to_upper build_tag build_commit build_time =
      then_load (set_all default_config koanf.empty) (λ k.
        then_load (koanf.load_env (transform to_upper) k) (λ k'.
          then_load (koanf.unmarshal k')
            (λ c. checked (with_build build_tag build_commit build_time c))))
