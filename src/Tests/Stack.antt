-- ===== src/Tests/Stack.antt =====
-- The whole API, on the server in memory and an identity provider that knows one token.
use finsplitter.Base.{ℕ, String, ◌==◌, ◌≡◌, refl, arith, true, false, none, some, if◌then◌else◌}
use finsplitter.Effects.{ok, err}
use finsplitter.Errs.{plain}
use finsplitter.Domain.Context.{background}
use finsplitter.Http.{http_error}
use finsplitter.Ports.{UserRepository}
use finsplitter.Strings.{Unicode, has_prefix, strip_prefix?}
use finsplitter.Logto.Http.{HttpClient}
use finsplitter.Postgres.CardBrand as Repo
use finsplitter.Postgres.CardBrand.{parse_to_card_brand}
use finsplitter.CardBrands.Routes.{create, get, card_brand_operation, serve}
use finsplitter.CardBrands.Handlers.{find_reply}
use finsplitter.Auth.Paths.{Request, extract_bearer_token}
use finsplitter.Auth.Keys.{Jwx}
use finsplitter.Auth.Middleware.{Middleware}
use finsplitter.Auth.Middleware.Frame.{IsOutside}
use finsplitter.Api.{Services, card_brands, operation, handler, routes}
use finsplitter.Api.Security.{routes_without_token}
use finsplitter.Api.Documented.{is_declared, handler_errors_declared}
use finsplitter.Tests.Server.{Server, server_db}
use finsplitter.Tests.Catalogue.{empty}

abbrev jwx : Jwx Server ℕ String
jwx = record {
  fetch = λ url w. (ok 1, w);
  parse_set = λ text. err (plain "no key set");
  marshal_set = λ set. ok "1";
  parse = λ set token w. ((if token == "a.b.c" then ok token else err (plain "bad token")), w);
  validate = λ issuer audience token w. (ok tt, w);
  subject = λ token. some "ana";
  field = λ token key. none;
}

abbrev users : UserRepository Server
users = record {
  create = λ ctx logto_id w. (err (plain "read only"), w);
  get_by_id = λ ctx id w. (err (plain "read only"), w);
  get_by_logto_user_id = λ ctx logto_id w. (err (plain "read only"), w);
  exists_by_logto_user_id = λ ctx logto_id w. (ok (logto_id == "ana"), w);
}

abbrev http : HttpClient Server
http = record { send = λ request w. (err (plain "offline"), w); now = λ w. 0 }

abbrev pub middleware : Middleware Server ℕ String
middleware = record {
  app_client_id = "app";
  user_repo = users;
  jwks_url = "https://id.example.com/oidc/jwks";
  issuer = "https://id.example.com/oidc";
  user_info_url = "https://id.example.com/oidc/me";
  jwk_client = jwx;
  cache = none;
  http_client = http;
  optional_logger = 1;
  required_logger = 2;
}

abbrev unicode : Unicode
unicode = record { is_letter = λ c. true; is_digit = λ c. false; to_lower = λ c. c }

abbrev pub services : Services Server
services = record {
  unicode = unicode;
  db = server_db;
  users = users;
  logto_creator = record { create_user = λ a b c d w. (err (plain "offline"), w) };
  logto_updater = record { update_user = λ a b c d e w. (err (plain "offline"), w) };
  logto_devices = record {
    request_device_code = λ w. (err (plain "offline"), w);
    poll_device_token = λ a w. (err (plain "offline"), w);
    refresh_device_token = λ a w. (err (plain "offline"), w);
    revoke_device_token = λ a w. (err (plain "offline"), w);
  };
}

abbrev pub request : String → String → Request
request path authorization = record { path = path; authorization = authorization; ctx = background }

pub middleware-IsOutside : IsOutside middleware (λ w. w.rows)
middleware-IsOutside = record {
  fetches = λ url w. refl;
  parses = λ set token w. refl;
  validates = λ issuer audience tok w. refl;
  sends = λ r w. refl;
  reads = λ cache key absent. absurd (ground arith);
  stores = λ cache key text ttl absent. absurd (ground arith);
}

routes_without_token_example :
    routes services
      (some middleware)
      (card_brands (create "Visa"))
      (request "/card-brands" "")
      empty
    ≡ (err (http_error 401 "missing authorization header"), empty)
unfolding operation card_brand_operation extract_bearer_token has_prefix strip_prefix?
routes_without_token_example =
    routes_without_token middleware services (card_brands (create "Visa"))
      (request "/card-brands" "") empty refl refl

handler_errors_declared_example : is_declared (card_brands (get 1)) 404 ≡ true
unfolding handler serve Repo.get_card_brand_by_id find_reply
handler_errors_declared_example =
    handler_errors_declared services (card_brands (get 1)) (request "/card-brands/1" "") empty empty
      (http_error 404 "CardBrand not found") refl
