-- ===== src/Api.antt =====
-- internal/gateways/http/v1: api.go, health.go and the routes of the parts, and
-- internal/gateways/http/request_id.go: from an HTTP request through the middlewares to a handler.
-- The dependencies are those that cmd/api/main.go passes on.
pub mod Security
pub mod Stack
pub mod Documented
pub mod Wiring
pub mod Lifecycle
pub mod Startup
pub mod Router
use finsplitter.Base.{ℕ, String, ◌==◌, Option, none, some, List, [], ◌∷◌, if◌then◌else◌}
use finsplitter.Effects.{Action, pure, ◌>>=◌}
use finsplitter.Domain.{Uuid, uuid_string}
use finsplitter.Domain.Context.{Ctx, with_request_id}
use finsplitter.Http.{HttpError, Operation}
use finsplitter.Ports.{UserRepository}
use finsplitter.Strings.{Unicode}
use finsplitter.Logto.{
  LogtoUserCreator, LogtoUserUpdater, LogtoDeviceFlowClient, DeviceCodeResponse,
  DeviceTokenResponse,
}
use finsplitter.Postgres.Driver.{Database}
use finsplitter.Accounts.UseCases.{RegisterInput}
use finsplitter.Accounts.Handlers.{
  MessageBody, MeBody, SetupBody, post_register, get_me, patch_setup,
}
use finsplitter.Device.Handlers as Devices
use finsplitter.CardBrands.Routes.{CardBrandRequest, CardBrandBody, card_brand_operation, serve}
use finsplitter.Auth.Middleware.{Middleware, Handler, with_context, protected}

pub data AuthRequest : Type 0 where
  register : RegisterInput → AuthRequest
  me : AuthRequest
  device_auth device_poll device_refresh device_revoke : String → AuthRequest

pub data ApiRequest : Type 0 where
  card_brands : CardBrandRequest → ApiRequest
  auth : AuthRequest → ApiRequest
  profile_setup : SetupBody → ApiRequest
  liveness readiness : ApiRequest

pub data ApiBody : Type 0 where
  card_brand_body : CardBrandBody → ApiBody
  message_body : MessageBody → ApiBody
  me_body : MeBody → ApiBody
  device_code_body : DeviceCodeResponse → ApiBody
  device_token_body : DeviceTokenResponse → ApiBody
  no_body : ApiBody

abbrev operation_with : List (List String) → String → String → List ℕ → Operation
operation_with security method path errors = record {
  method = method;
  path = path;
  security = security;
  errors = errors;
}

abbrev open_to_all : String → String → List ℕ → Operation
open_to_all = operation_with []

-- Security: {}, {"bearerAuth": {}}
abbrev token_optional : String → String → List ℕ → Operation
token_optional = operation_with ([] ∷ ("bearerAuth" ∷ []) ∷ [])

-- RegisterRoutes of the auth API
unfoldable pub auth_operation : AuthRequest → Operation
auth_operation (register _) = open_to_all "POST" "/auth/register" (409 ∷ 500 ∷ [])
auth_operation me = token_optional "GET" "/auth/me" (401 ∷ 403 ∷ [])
auth_operation (device_auth _) = open_to_all "POST" "/auth/device" (422 ∷ 500 ∷ [])
auth_operation (device_poll _) =
    open_to_all "POST" "/auth/device/poll" (400 ∷ 401 ∷ 403 ∷ 422 ∷ 500 ∷ [])
auth_operation (device_refresh _) = open_to_all "POST" "/auth/device/refresh" (400 ∷ 422 ∷ 500 ∷ [])
auth_operation (device_revoke _) = open_to_all "POST" "/auth/device/revoke" (422 ∷ 500 ∷ [])

-- RegisterRoutes of the profile API
abbrev pub profile_operation : Operation
profile_operation = token_optional "PATCH" "/profile/setup" (401 ∷ 409 ∷ 422 ∷ 500 ∷ [])

-- All routes. The health checks are plain chi routes, outside the API description.
unfoldable pub operation : ApiRequest → Operation
unfolding auth_operation card_brand_operation
operation (card_brands request) = card_brand_operation request
operation (auth request) = auth_operation request
operation (profile_setup _) = profile_operation
operation liveness = open_to_all "GET" "/health/liveness" []
operation readiness = open_to_all "GET" "/health/readiness" []

-- What NewAPI of each part is given
pub record Services (W : Type 0) : Type 0 where
  pub unicode : Unicode
  pub db : Database W
  pub users : UserRepository W
  pub logto_creator : LogtoUserCreator W
  pub logto_updater : LogtoUserUpdater W
  pub logto_devices : LogtoDeviceFlowClient W

module _ {W : Type 0} (s : Services W) where
  -- NewAPI of the auth API
  unfoldable pub auth_handler : AuthRequest → Ctx → Action W HttpError ApiBody
  unfolding post_register get_me Devices.device_auth Devices.device_poll Devices.device_refresh
      Devices.device_revoke
  auth_handler (register input) ctx =
      post_register s.unicode s.users s.logto_creator ctx input >>= λ b. pure (message_body b)
  auth_handler me ctx = get_me s.users ctx >>= λ b. pure (me_body b)
  auth_handler (device_auth email) ctx =
      Devices.device_auth s.logto_devices email >>= λ b. pure (device_code_body b)
  auth_handler (device_poll code) ctx =
      Devices.device_poll s.logto_devices code >>= λ b. pure (device_token_body b)
  auth_handler (device_refresh token) ctx =
      Devices.device_refresh s.logto_devices token >>= λ b. pure (device_token_body b)
  auth_handler (device_revoke token) ctx =
      Devices.device_revoke s.logto_devices token >>= λ _. pure no_body

  -- NewAPI of the profile API
  unfoldable pub profile_handler : SetupBody → Ctx → Action W HttpError ApiBody
  unfolding patch_setup
  profile_handler body ctx =
      patch_setup s.users s.logto_updater ctx body >>= λ b. pure (message_body b)

  unfoldable pub handler : ApiRequest → Handler W ApiBody
  unfolding serve auth_handler profile_handler
  handler (card_brands request) r = serve s.db r.ctx request >>= λ b. pure (card_brand_body b)
  handler (auth request) r = auth_handler request r.ctx
  handler (profile_setup body) r = profile_handler body r.ctx
  handler liveness r = pure no_body
  handler readiness r = pure no_body

  -- the method Routes, with the middleware in front of every route, if there is one
  unfoldable pub routes :
      {K T : Type 0} → Option (Middleware W K T) → ApiRequest → Handler W ApiBody
  unfolding protected handler
  routes none request = handler request
  routes (some m) request = protected m (handler request)

-- The middleware RequestID; `new` draws a random UUID.
unfoldable pub request_id :
    {W B : Type 0} → (W → Uuid × W) → (header : String) → Handler W B → Handler W B
unfolding with_request_id
request_id new header next r w =
    let (id, v) = new w in
    if header == ""
    then next (with_context r (with_request_id r.ctx (uuid_string id))) v
    else next (with_context r (with_request_id r.ctx header)) w
