-- ===== src/Api/Wiring.antt =====
-- cmd/api/main.go: which dependency goes where. The middleware and the handlers share one user
-- repository, over the same database as the card brands.
use finsplitter.Base.{ℕ, String, ◌+++◌, ◌≡◌, ◌≢◌, true, List, Option, some}
use finsplitter.Effects.{ok}
use finsplitter.Domain.{UserClaims}
use finsplitter.Domain.Context.{Ctx, new_ctx, with_user_claims}
use finsplitter.Strings.{Unicode, has_prefix}
use finsplitter.Config as Settings
use finsplitter.Cache.{Redis}
use finsplitter.Logto.{LogtoUserCreator, LogtoUserUpdater, LogtoDeviceFlowClient}
use finsplitter.Logto.Http.{HttpClient}
use finsplitter.Logto.Client as LogtoClient
use finsplitter.Postgres.Driver.{Database, UserRow}
use finsplitter.Postgres.User.{user_repository}
use finsplitter.Postgres.UserTable.{RunsUsers, user_repository-KeepsUsers}
use finsplitter.Accounts.Handlers.{MessageBody, SetupBody, patch_setup}
use finsplitter.Auth.Paths.{Request}
use finsplitter.Auth.Keys.{Jwx}
use finsplitter.Auth.Middleware.{
  Middleware, Handler, with_context, new_middleware, parse_and_validate, protected,
}
use finsplitter.Auth.Middleware.Setup.{setup_then_admitted}
use finsplitter.Api.{Services}

unfoldable pub new_logto_m2m_client : Settings.Config → LogtoClient.Config
new_logto_m2m_client cfg = record {
  oidc_endpoint = cfg.logto.oidc_endpoint;
  management_base_url = cfg.logto.management_base_url;
  management_api_resource = cfg.logto.mgmt_api_resource;
  client_id = cfg.logto.mgmt_client_id;
  client_secret = cfg.logto.mgmt_client_secret;
  device_app_client_id = cfg.logto.device_app_client_id;
}

module _ {W K T : Type 0} (db : Database W) where
  -- The loggers of the middleware are made per request.
  unfoldable pub new_auth_middleware :
      Settings.Config
      → (optional_logger required_logger : ℕ) → Option (Redis W)
      → Jwx W K T
      → HttpClient W
      → Middleware W K T
  unfolding new_middleware
  new_auth_middleware cfg optional required cache jwx http =
      new_middleware cfg.logto.oidc_endpoint cfg.logto.oidc_issuer cfg.logto.app_client_id
        (user_repository db) optional required cache jwx http

module _ {W : Type 0} (db : Database W) where
  -- newCardBrandAPI, newAuthAPI and newProfileAPI are given these.
  unfoldable pub new_services :
      Unicode → LogtoUserCreator W → LogtoUserUpdater W → LogtoDeviceFlowClient W → Services W
  new_services unicode creator updater devices = record {
    unicode = unicode;
    db = db;
    users = user_repository db;
    logto_creator = creator;
    logto_updater = updater;
    logto_devices = devices;
  }

-- The application on PostgreSQL: after a successful profile setup, a request for the card brands
-- with a token that is valid for the same claims reaches the next handler, with these claims in its
-- context, if neither request is in a transaction of its own and the validation of the token changes
-- nothing.
pub wired_setup_then_admitted :
    {W K T B : Type 0} (db : Database W) (sees : Option ℕ → W → List UserRow)
    (runs : RunsUsers db sees) (cfg : Settings.Config) (optional required : ℕ)
    (cache : Option (Redis W)) (jwx : Jwx W K T) (http : HttpClient W) (logto : LogtoUserUpdater W)
    (next : Handler W B) (ctx : Ctx) (body : SetupBody) (claims : UserClaims) (reply : MessageBody)
    (r : Request) (token : String) (w w' : W)
    → ctx.claims ≡ some claims
    → patch_setup (user_repository db) logto ctx body w ≡ (ok reply, w')
    → has_prefix r.path "/card-brands" ≡ true
    → r.authorization ≡ "Bearer " +++ token
    → token ≢ ""
    → r.ctx.tx ≡ ctx.tx
    → parse_and_validate (new_auth_middleware db cfg optional required cache jwx http) token w'
      ≡ (ok claims, w')
    → protected (new_auth_middleware db cfg optional required cache jwx http) next r w'
      ≡ next (with_context r (with_user_claims (new_ctx (some r.ctx) required) claims)) w'
unfolding new_auth_middleware new_middleware
wired_setup_then_admitted db sees runs cfg optional required cache jwx http logto next ctx body
      claims reply r token w w' c h path header given tx valid =
    setup_then_admitted (new_auth_middleware db cfg optional required cache jwx http) next
      (user_repository-KeepsUsers db sees runs) logto ctx body claims reply r token w w' c h path
      header given tx valid
