-- ===== src/Postgres/Pool.antt =====
-- internal/gateways/postgres/pool.go. pgxpool is a parameter: the record PoolPackage.
use finsplitter.Base.{suc, String, List, [], ◌∷◌, ◌+++◌, decimal, ◌||◌, if◌then◌else◌}
use finsplitter.Base.Int.{ℤ, pos, negsuc}
use finsplitter.Effects.{Result, Action, pure, fail, lift, catch}
use finsplitter.Errs.{Error, prefixed}
use finsplitter.Strings.{contains_char}
use finsplitter.Config as Settings

-- strconv.Itoa
abbrev itoa : ℤ → String
itoa (pos n) = decimal n
itoa (negsuc n) = "-" +++ decimal (suc n)

-- net.JoinHostPort: an IPv6 address goes into brackets
unfoldable pub join_host_port : String → String → String
join_host_port host port =
    if contains_char host b':' || contains_char host b'%'
    then "[" +++ host +++ "]:" +++ port
    else host +++ ":" +++ port

-- The user and the password go in as they are.
unfoldable pub connection_string : Settings.Database → String
unfolding join_host_port
connection_string cfg =
    "postgres://"
    +++ cfg.user
    +++ ":"
    +++ cfg.password
    +++ "@"
    +++ join_host_port cfg.host (itoa cfg.port)
    +++ "/"
    +++ cfg.db_name
    +++ "?sslmode="
    +++ cfg.ssl_mode
    +++ "&application_name=finsplitter"

-- What NewPoolConfig assigns to the fields of a parsed configuration. `register_decimal` is the hook
-- AfterConnect, and `trace` the tracer of otelpgx.
pub data PoolSetting : Type 0 where
  register_decimal : PoolSetting
  trace : PoolSetting
  max_conns : ℤ → PoolSetting
  min_conns : ℤ → PoolSetting
  max_conn_lifetime : ℤ → PoolSetting
  max_conn_idle_time : ℤ → PoolSetting
  health_check_period : ℤ → PoolSetting
  connect_timeout : ℤ → PoolSetting

-- pgxpool: `S` are parsed configurations, and `P` pools; a pool keeps its connection string.
pub record PoolPackage (W P S : Type 0) : Type 0 where
  pub parse_config : String → Result Error S
  pub assign : PoolSetting → S → S
  pub new_with_config : S → Action W Error P
  pub conn_string : P → String

module _ {W P S : Type 0} (pools : PoolPackage W P S) where
  abbrev assign_all : List PoolSetting → S → S
  assign_all [] s = s
  assign_all (setting ∷ rest) s = assign_all rest (pools.assign setting s)

  unfoldable pub configured : Settings.PoolConfig → S → S
  configured pool = assign_all (
      register_decimal
      ∷ trace
      ∷ max_conns pool.max_conns
      ∷ min_conns pool.min_conns
      ∷ max_conn_lifetime pool.max_conn_lifetime
      ∷ max_conn_idle_time pool.max_conn_idle_time
      ∷ health_check_period pool.health_check_period
      ∷ connect_timeout pool.connect_timeout
      ∷ [])

  unfoldable pub new_pool_config : Settings.Database → Action W Error S
  unfolding configured
  new_pool_config cfg =
      catch (lift (pools.parse_config (connection_string cfg))) (λ s. pure (configured cfg.pool s))
        (λ e. fail (prefixed "failed to parse database config" e))
