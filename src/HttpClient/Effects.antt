-- ===== src/HttpClient/Effects.antt =====
-- The settings of a client, what resty documents of its setters, and what the options promise.
use finsplitter.Base.{ℕ, Bool, ◌++◌, String, ◌≡◌, Option, some, List, [], ◌∷◌, get_or}
use finsplitter.Base.Int.{ℤ, pos}
use finsplitter.HttpClient.{
  RestyCall, set_retry_count, set_retry_wait_time, set_retry_max_wait_time, set_timeout,
  set_base_url, set_scheme, set_auth_token, set_response_save_directory, set_header, set_path_param,
  set_query_param, set_basic_auth, set_headers, set_transport, set_cookies, add_retry_conditions,
  add_retry_hooks, add_request_middleware, add_response_middleware, set_logger,
  set_response_save_to_file, set_method_get_allow_payload, set_method_delete_allow_payload, Resty,
  ClientOption, with_retry_count, with_retry_wait_time, with_timeout, with_base_url, with_headers,
  with_header, with_retry_condition, with_retry_hook, with_transport, with_open_telemetry,
  with_request_middleware, with_response_middleware, with_scheme, with_path_param, with_query_param,
  with_cookies, with_basic_auth, with_auth_token, with_response_save_directory,
  with_response_save_to_file, with_method_get_allow_payload, with_method_delete_allow_payload,
  with_logger,
}

-- The settings of a client, as plain data
pub record Settings (T M : Type 0) : Type 0 where
  pub retry_count : ℤ
  pub retry_wait_time : ℤ
  pub retry_max_wait_time : ℤ
  pub timeout : ℤ
  pub base_url : String
  pub scheme : String
  pub auth_token : String
  pub basic_auth : Option (String × String)
  pub headers : M
  pub path_params : M
  pub query_params : M
  pub transport : Option T
  pub cookies : List ℕ
  pub retry_conditions : List ℕ
  pub retry_hooks : List ℕ
  pub request_middlewares : List ℕ
  pub response_middlewares : List ℕ
  pub logger : Option ℕ
  pub save_directory : String
  pub save_to_file : Bool
  pub get_allow_payload : Bool
  pub delete_allow_payload : Bool

module _ {R T M : Type 0} (resty : Resty R T M) where
  abbrev pub settings : R → Settings T M
  settings c = record {
    retry_count = resty.retry_count c;
    retry_wait_time = resty.retry_wait_time c;
    retry_max_wait_time = resty.retry_max_wait_time c;
    timeout = resty.timeout c;
    base_url = resty.base_url c;
    scheme = resty.scheme c;
    auth_token = resty.auth_token c;
    basic_auth = resty.basic_auth c;
    headers = resty.headers c;
    path_params = resty.path_params c;
    query_params = resty.query_params c;
    transport = resty.transport c;
    cookies = resty.cookies c;
    retry_conditions = resty.retry_conditions c;
    retry_hooks = resty.retry_hooks c;
    request_middlewares = resty.request_middlewares c;
    response_middlewares = resty.response_middlewares c;
    logger = resty.logger c;
    save_directory = resty.save_directory c;
    save_to_file = resty.save_to_file c;
    get_allow_payload = resty.get_allow_payload c;
    delete_allow_payload = resty.delete_allow_payload c;
  }

  -- http.Header.Set for each entry, in the order in which the map is run over
  abbrev pub put_headers : List (String × String) → M → M
  put_headers [] m = m
  put_headers ((key, value) ∷ rest) m = put_headers rest (resty.put_header key value m)

  -- what resty documents of each setter
  abbrev pub written : RestyCall T → Settings T M → Settings T M
  written (set_retry_count n) s = record s { retry_count = n }
  written (set_retry_wait_time d) s = record s { retry_wait_time = d }
  written (set_retry_max_wait_time d) s = record s { retry_max_wait_time = d }
  written (set_timeout d) s = record s { timeout = d }
  written (set_base_url url) s = record s { base_url = resty.put_base_url url }
  written (set_scheme scheme) s = record s { scheme = resty.put_scheme scheme s.scheme }
  written (set_auth_token token) s = record s { auth_token = token }
  written (set_response_save_directory dir) s = record s { save_directory = dir }
  written (set_header key value) s = record s { headers = resty.put_header key value s.headers }
  written (set_path_param name value) s = record s {
    path_params = resty.put_path_param name value s.path_params;
  }
  written (set_query_param name value) s = record s {
    query_params = resty.put_query_param name value s.query_params;
  }
  written (set_basic_auth username password) s = record s { basic_auth = some (username, password) }
  written (set_headers headers) s = record s { headers = put_headers headers s.headers }
  written (set_transport t) s = record s { transport = some t }
  written (set_cookies cookies) s = record s { cookies = s.cookies ++ cookies }
  written (add_retry_conditions f) s = record s {
    retry_conditions = s.retry_conditions ++ (f ∷ []);
  }
  written (add_retry_hooks f) s = record s { retry_hooks = s.retry_hooks ++ (f ∷ []) }
  written (add_request_middleware m) s = record s {
    request_middlewares = s.request_middlewares ++ (m ∷ []);
  }
  written (add_response_middleware m) s = record s {
    response_middlewares = s.response_middlewares ++ (m ∷ []);
  }
  written (set_logger logger) s = record s { logger = some logger }
  written (set_response_save_to_file save) s = record s { save_to_file = save }
  written (set_method_get_allow_payload allow) s = record s { get_allow_payload = allow }
  written (set_method_delete_allow_payload allow) s = record s { delete_allow_payload = allow }

  -- resty's setters: each writes its own setting and leaves the others alone.
  pub record IsResty : Type 0 where
    pub writes : (c : RestyCall T) (x : R) → settings (resty.call c x) ≡ written c (settings x)

  abbrev pub instrumented : Settings T M → Settings T M
  instrumented s = record s {
    transport = some (resty.otel_transport (get_or s.transport resty.default_transport));
  }

  -- What an option promises
  abbrev pub effect : ClientOption T → Settings T M → Settings T M
  effect (with_retry_count n) s = record s { retry_count = n }
  effect (with_retry_wait_time wait_min wait_max) s = record s {
    retry_wait_time = wait_min;
    retry_max_wait_time = wait_max;
  }
  effect (with_timeout d) s = record s { timeout = d }
  effect (with_base_url url) s = record s { base_url = resty.put_base_url url }
  effect (with_transport t) s = record s { transport = some t }
  effect with_open_telemetry s = instrumented s
  effect (with_headers headers) s = record s { headers = put_headers headers s.headers }
  effect (with_header key value) s = record s { headers = resty.put_header key value s.headers }
  effect (with_retry_condition condition) s = record s {
    retry_conditions = s.retry_conditions ++ (condition ∷ []);
  }
  effect (with_retry_hook hook) s = record s { retry_hooks = s.retry_hooks ++ (hook ∷ []) }
  effect (with_request_middleware m) s = record s {
    request_middlewares = s.request_middlewares ++ (m ∷ []);
  }
  effect (with_response_middleware m) s = record s {
    response_middlewares = s.response_middlewares ++ (m ∷ []);
  }
  effect (with_scheme scheme) s = record s { scheme = resty.put_scheme scheme s.scheme }
  effect (with_path_param name value) s = record s {
    path_params = resty.put_path_param name value s.path_params;
  }
  effect (with_query_param name value) s = record s {
    query_params = resty.put_query_param name value s.query_params;
  }
  effect (with_cookies cookies) s = record s { cookies = s.cookies ++ cookies }
  effect (with_basic_auth username password) s = record s { basic_auth = some (username, password) }
  effect (with_auth_token token) s = record s { auth_token = token }
  effect (with_response_save_directory dir) s = record s { save_directory = dir }
  effect (with_response_save_to_file save) s = record s { save_to_file = save }
  effect (with_method_get_allow_payload allow) s = record s { get_allow_payload = allow }
  effect (with_method_delete_allow_payload allow) s = record s { delete_allow_payload = allow }
  effect (with_logger logger) s = record s { logger = some (resty.wrap_logger logger) }

  abbrev pub effects : List (ClientOption T) → Settings T M → Settings T M
  effects [] s = s
  effects (opt ∷ opts) s = effects opts (effect opt s)

  abbrev pub all_effects : List (List (ClientOption T)) → Settings T M → Settings T M
  all_effects [] s = s
  all_effects (opts ∷ more) s = all_effects more (effects opts s)

  -- the documented defaults
  abbrev pub defaults : Settings T M
  defaults = record (settings resty.new) {
    retry_count = pos 3;
    retry_wait_time = pos 500000000;
    retry_max_wait_time = pos 10000000000;
    timeout = pos 30000000000;
  }
