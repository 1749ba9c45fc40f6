-- ===== src/HttpClient.antt =====
-- pkg/httpclient/client.go: the options of the HTTP client, over the package resty, which is a
-- parameter; and NewClient of internal/gateways/logto/m2m_client.go, which builds on it.
pub mod Effects
pub mod Settings
use finsplitter.Base.{ℕ, String, ◌+++◌, Bool, Option, none, some, List, [], ◌∷◌, get_or}
use finsplitter.Base.Int.{ℤ, pos}

-- The setters of resty.Client that the code calls. Functions, loggers and cookies are pointers,
-- which are numbers here; a duration is in nanoseconds, and a transport is never nil.
pub data RestyCall (T : Type 0) : Type 0 where
  set_retry_count set_retry_wait_time set_retry_max_wait_time set_timeout : ℤ → RestyCall T
  set_base_url set_scheme set_auth_token set_response_save_directory : String → RestyCall T
  set_header set_path_param set_query_param set_basic_auth : String → String → RestyCall T
  set_headers : List (String × String) → RestyCall T
  set_transport : T → RestyCall T
  set_cookies : List ℕ → RestyCall T
  add_retry_conditions add_retry_hooks : ℕ → RestyCall T
  add_request_middleware add_response_middleware set_logger : ℕ → RestyCall T
  set_response_save_to_file set_method_get_allow_payload : Bool → RestyCall T
  set_method_delete_allow_payload : Bool → RestyCall T

-- `call` runs a setter on a client; the fields after it read a setting back, `transport` by the
-- getter, where `none` is nil. The two transports are http.DefaultTransport and
-- otelhttp.NewTransport; `wrap_logger` makes a restyLogger. `M` are the client's maps of texts, and
-- the `put` functions are what resty makes of a text before it is stored (the canonical name of a
-- header, an escaped path parameter, a URL without its last slash).
pub record Resty (R T M : Type 0) : Type 0 where
  pub new : R
  pub call : RestyCall T → R → R
  pub retry_count : R → ℤ
  pub retry_wait_time : R → ℤ
  pub retry_max_wait_time : R → ℤ
  pub timeout : R → ℤ
  pub base_url : R → String
  pub scheme : R → String
  pub auth_token : R → String
  pub basic_auth : R → Option (String × String)
  pub headers : R → M
  pub path_params : R → M
  pub query_params : R → M
  pub transport : R → Option T
  pub cookies : R → List ℕ
  pub retry_conditions : R → List ℕ
  pub retry_hooks : R → List ℕ
  pub request_middlewares : R → List ℕ
  pub response_middlewares : R → List ℕ
  pub logger : R → Option ℕ
  pub save_directory : R → String
  pub save_to_file : R → Bool
  pub get_allow_payload : R → Bool
  pub delete_allow_payload : R → Bool
  pub put_base_url : String → String
  pub put_scheme : String → String → String
  pub put_header : String → String → M → M
  pub put_path_param : String → String → M → M
  pub put_query_param : String → String → M → M
  pub default_transport : T
  pub otel_transport : T → T
  pub wrap_logger : ℕ → ℕ

abbrev pub default_retry_count : ℤ
default_retry_count = pos 3

-- 500 ms
abbrev pub default_retry_wait_time : ℤ
default_retry_wait_time = pos 500000000

-- 10 s
abbrev pub default_retry_max_wait_time : ℤ
default_retry_max_wait_time = pos 10000000000

-- 30 s
abbrev pub default_timeout : ℤ
default_timeout = pos 30000000000

-- An Option, by the function that makes it
pub data ClientOption (T : Type 0) : Type 0 where
  with_retry_count : ℤ → ClientOption T
  with_retry_wait_time : (wait_min wait_max : ℤ) → ClientOption T
  with_timeout : ℤ → ClientOption T
  with_base_url : String → ClientOption T
  with_headers : List (String × String) → ClientOption T
  with_header : String → String → ClientOption T
  with_retry_condition with_retry_hook : ℕ → ClientOption T
  with_transport : T → ClientOption T
  with_open_telemetry : ClientOption T
  with_request_middleware with_response_middleware : ℕ → ClientOption T
  with_scheme : String → ClientOption T
  with_path_param with_query_param : String → String → ClientOption T
  with_cookies : List ℕ → ClientOption T
  with_basic_auth : String → String → ClientOption T
  with_auth_token with_response_save_directory : String → ClientOption T
  with_response_save_to_file with_method_get_allow_payload : Bool → ClientOption T
  with_method_delete_allow_payload : Bool → ClientOption T
  with_logger : ℕ → ClientOption T

module _ {R T M : Type 0} (resty : Resty R T M) where
  -- otelhttp.NewTransport around the client's transport, or around the default one
  unfoldable pub instrument : R → R
  instrument c =
      resty.call
        (set_transport (resty.otel_transport (get_or (resty.transport c) resty.default_transport)))
        c

  unfoldable pub apply_option : ClientOption T → R → R
  unfolding instrument
  apply_option (with_retry_count n) c = resty.call (set_retry_count n) c
  apply_option (with_retry_wait_time wait_min wait_max) c =
      resty.call (set_retry_max_wait_time wait_max) (resty.call (set_retry_wait_time wait_min) c)
  apply_option (with_timeout d) c = resty.call (set_timeout d) c
  apply_option (with_base_url url) c = resty.call (set_base_url url) c
  apply_option (with_headers headers) c = resty.call (set_headers headers) c
  apply_option (with_header key value) c = resty.call (set_header key value) c
  apply_option (with_retry_condition condition) c = resty.call (add_retry_conditions condition) c
  apply_option (with_retry_hook hook) c = resty.call (add_retry_hooks hook) c
  apply_option (with_transport transport) c = resty.call (set_transport transport) c
  apply_option with_open_telemetry c = instrument c
  apply_option (with_request_middleware m) c = resty.call (add_request_middleware m) c
  apply_option (with_response_middleware m) c = resty.call (add_response_middleware m) c
  apply_option (with_scheme scheme) c = resty.call (set_scheme scheme) c
  apply_option (with_path_param name value) c = resty.call (set_path_param name value) c
  apply_option (with_query_param name value) c = resty.call (set_query_param name value) c
  apply_option (with_cookies cookies) c = resty.call (set_cookies cookies) c
  apply_option (with_basic_auth username password) c =
      resty.call (set_basic_auth username password) c
  apply_option (with_auth_token token) c = resty.call (set_auth_token token) c
  apply_option (with_response_save_directory dir) c = resty.call (set_response_save_directory dir) c
  apply_option (with_response_save_to_file save) c = resty.call (set_response_save_to_file save) c
  apply_option (with_method_get_allow_payload allow) c =
      resty.call (set_method_get_allow_payload allow) c
  apply_option (with_method_delete_allow_payload allow) c =
      resty.call (set_method_delete_allow_payload allow) c
  apply_option (with_logger logger) c = resty.call (set_logger (resty.wrap_logger logger)) c

  -- `for _, opt := range opts`
  unfoldable pub apply_options : List (ClientOption T) → R → R
  unfolding apply_option
  apply_options [] c = c
  apply_options (opt ∷ opts) c = apply_options opts (apply_option opt c)

  -- the client before the options
  unfoldable pub base_client : R
  base_client = resty.call (set_timeout default_timeout) (
      resty.call (set_retry_max_wait_time default_retry_max_wait_time) (
        resty.call (set_retry_wait_time default_retry_wait_time)
          (resty.call (set_retry_count default_retry_count) resty.new)))

  unfoldable pub new : List (ClientOption T) → R
  unfolding apply_options base_client instrument
  new opts = instrument (apply_options opts base_client)

  -- The options that NewClient of the Logto client hands to New: 10 s, and 500 ms to 10 s
  abbrev pub logto_options : String → List (ClientOption T)
  logto_options management_base_url =
      with_base_url (management_base_url +++ "/api")
      ∷ with_timeout (pos 10000000000)
      ∷ with_retry_wait_time (pos 500000000) (pos 10000000000)
      ∷ []

  -- the options of NewClient itself, each a list of options for the finished client
  unfoldable pub apply_all : List (List (ClientOption T)) → R → R
  unfolding apply_options
  apply_all [] c = c
  apply_all (opts ∷ more) c = apply_all more (apply_options opts c)

  unfoldable pub new_logto_client : String → List (List (ClientOption T)) → R
  unfolding new apply_all
  new_logto_client management_base_url opts =
      apply_all opts (new (logto_options management_base_url))
