-- ===== src/Tests/Clients.antt =====
-- The HTTP client, on a client that is just its settings.
use finsplitter.Base.{ℕ, String, List, ◌+◌, ◌≡◌, refl, false, none, some, [], ◌∷◌}
use finsplitter.Base.Int.{pos}
use finsplitter.HttpClient.{
  Resty, with_timeout, with_transport, with_open_telemetry, with_auth_token, with_header,
  with_cookies, new,
}
use finsplitter.HttpClient.Effects.{Settings, settings, written, IsResty}
use finsplitter.HttpClient.Settings.{settings-new}

abbrev Texts : Type 0
Texts = List (String × String)

abbrev nothing_set : Settings ℕ Texts
nothing_set = record {
  retry_count = pos 0;
  retry_wait_time = pos 0;
  retry_max_wait_time = pos 0;
  timeout = pos 0;
  base_url = "";
  scheme = "";
  auth_token = "";
  basic_auth = none;
  headers = [];
  path_params = [];
  query_params = [];
  transport = none;
  cookies = [];
  retry_conditions = [];
  retry_hooks = [];
  request_middlewares = [];
  response_middlewares = [];
  logger = none;
  save_directory = "";
  save_to_file = false;
  get_allow_payload = false;
  delete_allow_payload = false;
}

-- Transport 1 is the default one, and 100 + t is t with instrumentation; a map keeps all pairs.
abbrev idle_resty : Resty (Settings ℕ Texts) ℕ Texts
idle_resty = record {
  new = nothing_set;
  call = λ c s. s;
  retry_count = λ s. s.retry_count;
  retry_wait_time = λ s. s.retry_wait_time;
  retry_max_wait_time = λ s. s.retry_max_wait_time;
  timeout = λ s. s.timeout;
  base_url = λ s. s.base_url;
  scheme = λ s. s.scheme;
  auth_token = λ s. s.auth_token;
  basic_auth = λ s. s.basic_auth;
  headers = λ s. s.headers;
  path_params = λ s. s.path_params;
  query_params = λ s. s.query_params;
  transport = λ s. s.transport;
  cookies = λ s. s.cookies;
  retry_conditions = λ s. s.retry_conditions;
  retry_hooks = λ s. s.retry_hooks;
  request_middlewares = λ s. s.request_middlewares;
  response_middlewares = λ s. s.response_middlewares;
  logger = λ s. s.logger;
  save_directory = λ s. s.save_directory;
  save_to_file = λ s. s.save_to_file;
  get_allow_payload = λ s. s.get_allow_payload;
  delete_allow_payload = λ s. s.delete_allow_payload;
  put_base_url = λ url. url;
  put_scheme = λ scheme old. scheme;
  put_header = λ key value m. (key, value) ∷ m;
  put_path_param = λ name value m. (name, value) ∷ m;
  put_query_param = λ name value m. (name, value) ∷ m;
  default_transport = 1;
  otel_transport = λ t. 100 + t;
  wrap_logger = λ l. l;
}

abbrev plain_resty : Resty (Settings ℕ Texts) ℕ Texts
plain_resty = record idle_resty { call = written idle_resty }

plain_resty-IsResty : IsResty plain_resty
plain_resty-IsResty = record { writes = λ c s. refl }

-- With WithOpenTelemetry among the options the transport is instrumented twice.
settings-new_example :
    settings plain_resty (
      new plain_resty (
        with_timeout (pos 5)
        ∷ with_transport 7
        ∷ with_header "Accept" "text/plain"
        ∷ with_auth_token "secret"
        ∷ with_cookies (4 ∷ [])
        ∷ with_open_telemetry
        ∷ []))
    ≡ record nothing_set {
      retry_count = pos 3;
      retry_wait_time = pos 500000000;
      retry_max_wait_time = pos 10000000000;
      timeout = pos 5;
      headers = ("Accept", "text/plain") ∷ [];
      auth_token = "secret";
      cookies = 4 ∷ [];
      transport = some 207;
    }
settings-new_example = settings-new plain_resty plain_resty-IsResty (
    with_timeout (pos 5)
    ∷ with_transport 7
    ∷ with_header "Accept" "text/plain"
    ∷ with_auth_token "secret"
    ∷ with_cookies (4 ∷ [])
    ∷ with_open_telemetry
    ∷ [])
