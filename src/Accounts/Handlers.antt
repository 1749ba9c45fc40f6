-- ===== src/Accounts/Handlers.antt =====
-- internal/gateways/http/v1/auth/handler.go and internal/gateways/http/v1/profile/handler.go
pub mod Setup
pub mod Register
pub mod Me
use finsplitter.Base.{String, Bool, false, Option, none, some, if◌then◌else◌}
use finsplitter.Effects.{Action, pure, fail, catch}
use finsplitter.Errs.{Error, is, username_taken, user_already_exists, duplicate, invalid_input}
use finsplitter.Domain.{UserClaims}
use finsplitter.Domain.Context.{Ctx, get_user_claims}
use finsplitter.Http.{HttpError, http_error}
use finsplitter.Ports.{UserRepository}
use finsplitter.Strings.{Unicode}
use finsplitter.Logto.{LogtoUserCreator, LogtoUserUpdater}
use finsplitter.Accounts.UseCases.{
  RegisterInput, RegisterOutput, MeOutput, SetupInput, register, me, setup,
}

pub record MessageBody : Type 0 where
  pub message : String
  pub user_id : String

pub record MeBody : Type 0 where
  pub id : String
  pub username : String
  pub email : String
  pub name : String
  pub phone : String
  pub picture : String
  pub needs_setup : Bool

pub record SetupBody : Type 0 where
  pub username : String
  pub name : String
  pub phone : String
  pub picture : String

unfoldable pub register_reply : Error → HttpError
register_reply e =
    if is e username_taken
    then http_error 409 "username already taken"
    else if is e user_already_exists
    then http_error 409 "user already registered"
    else http_error 500 "registration failed"

unfoldable pub setup_reply : Error → HttpError
setup_reply e =
    if is e duplicate
    then http_error 409 "profile already set up"
    else if is e invalid_input
    then http_error 422 "invalid input"
    else http_error 500 "setup failed"

abbrev pub empty_me : MeBody
empty_me = record {
  id = "";
  username = "";
  email = "";
  name = "";
  phone = "";
  picture = "";
  needs_setup = false;
}

abbrev pub me_body : UserClaims → MeOutput → MeBody
me_body claims output = record {
  id = output.id;
  username = claims.username;
  email = claims.email;
  name = claims.name;
  phone = claims.phone;
  picture = claims.picture;
  needs_setup = output.needs_setup;
}

abbrev pub registered_body : String → MessageBody
registered_body user_id = record {
  message = "Account created. Use POST /auth/device to receive a verification code.";
  user_id = user_id;
}

abbrev pub set_up_body : String → MessageBody
set_up_body user_id = record {
  message = "Profile setup complete. Please re-authenticate to receive an updated JWT.";
  user_id = user_id;
}

module _ {W : Type 0} where
  -- POST /auth/register
  unfoldable pub post_register :
      Unicode
      → UserRepository W
      → LogtoUserCreator W
      → Ctx
      → RegisterInput
      → Action W HttpError MessageBody
  unfolding register_reply register
  post_register u users logto ctx body =
      catch (register u users logto ctx body) (λ output. pure (registered_body output.user_id))
        (λ e. fail (register_reply e))

  -- GET /auth/me
  unfoldable pub get_me : UserRepository W → Ctx → Action W HttpError MeBody
  unfolding me get_user_claims
  get_me users ctx = elim (get_user_claims ctx) [
    | none ↦ pure empty_me
    | some claims ↦
        catch (me users ctx claims.sub) (λ output. pure (me_body claims output))
          (λ _. fail (http_error 500 "failed to get user info"))
  ]

  -- PATCH /profile/setup; the claims come from the request context
  unfoldable pub patch_setup :
      UserRepository W → LogtoUserUpdater W → Ctx → SetupBody → Action W HttpError MessageBody
  unfolding setup_reply setup get_user_claims
  patch_setup users logto ctx body = elim (get_user_claims ctx) [
    | none ↦ fail (http_error 401 "unauthenticated")
    | some claims ↦
        catch
          (setup users logto ctx (record {
            logto_user_id = claims.sub;
            username = body.username;
            name = body.name;
            phone = body.phone;
            picture = body.picture;
          }))
          (λ user_id. pure (set_up_body user_id)) (λ e. fail (setup_reply e))
  ]
