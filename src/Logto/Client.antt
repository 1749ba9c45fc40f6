-- ===== src/Logto/Client.antt =====
-- internal/gateways/logto/m2m_client.go: the Management API client with its cached access token.
pub mod Token
use finsplitter.Base.{
  ℕ, String, ◌==◌, ◌+++◌, Bool, true, false, Option, none, some, List, [], ◌∷◌, eqb, leb, ◌||◌, ◌*◌,
  ◌^◌, decimal, if◌then◌else◌,
}
use finsplitter.Base.Int.{ℤ, pos, pos_part, ◌-ℤ◌, ◌+ℤ◌, int64, int64_of, ltb_ℤ}
use finsplitter.Effects.{Result, ok, Action, pure, fail, catch, ◌>>=◌}
use finsplitter.Errs.{
  Error, sentinel, wrap, prefixed, status_error, m2m_unauthorized, user_exists,
  email_already_in_use, user_not_found,
}
use finsplitter.Logto.{CreateUserResponse}
use finsplitter.Logto.Http.{HttpRequest, HttpResponse, HttpClient, text_field, int_field}

pub record Config : Type 0 where
  pub oidc_endpoint : String
  pub management_base_url : String
  pub management_api_resource : String
  pub client_id : String
  pub client_secret : String
  pub device_app_client_id : String

-- `expires_at` is in nanoseconds, on the clock of time.Now.
pub record CachedToken : Type 0 where
  pub access_token : String
  pub expires_at : ℤ

-- The client's token, and the world
abbrev pub Shared : Type 0 → Type 0
Shared W = Option CachedToken × W

-- A call that leaves the token alone
abbrev pub outside : {W E A : Type 0} → Action W E A → Action (Shared W) E A
outside m (token, w) = let (r, w') = m w in (r, (token, w'))

-- c.token != nil && time.Now().Before(c.token.expiresAt)
unfoldable pub usable_token : Option CachedToken → ℕ → Option String
usable_token none now = none
usable_token (some t) now = if ltb_ℤ (pos now) t.expires_at then some t.access_token else none

abbrev pub token_expiry_buffer : ℕ
token_expiry_buffer = 60

-- time.Duration(max(tr.ExpiresIn-tokenExpiryBuffer, 0)) * time.Second; both operations wrap.
unfoldable pub token_lifetime : ℤ → ℤ
token_lifetime expires_in =
    int64 (pos_part (int64_of (expires_in -ℤ pos token_expiry_buffer)) * 10 ^ 9)

-- The `omitempty` fields of a JSON body
abbrev pub omit_empty : List (String × String) → List (String × String)
omit_empty [] = []
omit_empty ((k, v) ∷ fields) = if v == "" then omit_empty fields else (k, v) ∷ omit_empty fields

abbrev pub token_request : Config → HttpRequest
token_request cfg = record {
  method = "POST";
  url = cfg.oidc_endpoint +++ "/token";
  auth_token = none;
  form =
      ("grant_type", "client_credentials")
      ∷ (
        "resource",
        (if cfg.management_api_resource == ""
            then cfg.management_base_url +++ "/api"
            else cfg.management_api_resource),
      )
      ∷ ("scope", "all")
      ∷ ("client_id", cfg.client_id)
      ∷ ("client_secret", cfg.client_secret)
      ∷ [];
  json = [];
  result = true;
  result_error = false;
}

abbrev pub create_user_request : String → String → String → String → String → HttpRequest
create_user_request token username password name email = record {
  method = "POST";
  url = "/users";
  auth_token = some token;
  form = [];
  json = omit_empty (
      ("username", username)
      ∷ ("password", password)
      ∷ ("name", name)
      ∷ ("primaryEmail", email)
      ∷ []);
  result = true;
  result_error = false;
}

-- The switch of CreateUser on the status
unfoldable pub created_user : {W : Type 0} → HttpResponse → Action W Error CreateUserResponse
created_user response =
    if eqb response.status 200 || eqb response.status 201
    then pure (record { id = text_field response "id"; username = text_field response "username" })
    else if eqb response.status 409
    then fail (sentinel user_exists)
    else if eqb response.status 422
    then fail (sentinel email_already_in_use)
    else if eqb response.status 401
    then fail (sentinel m2m_unauthorized)
    else fail (status_error "create user" response.status)

abbrev pub update_user_request : String → String → String → String → String → String → HttpRequest
update_user_request token user_id username name phone picture = record {
  method = "PATCH";
  url = "/users/" +++ user_id;
  auth_token = some token;
  form = [];
  json = omit_empty (
      ("username", username) ∷ ("name", name) ∷ ("primaryPhone", phone) ∷ ("avatar", picture) ∷ []);
  result = false;
  result_error = false;
}

-- The switch of UpdateUser on the status
unfoldable pub updated_user : {W : Type 0} → String → HttpResponse → Action W Error (Unit {0})
updated_user user_id response =
    if eqb response.status 200 || eqb response.status 204
    then pure tt
    else if eqb response.status 404
    then fail (wrap "" (sentinel user_not_found) (": user " +++ user_id))
    else if eqb response.status 401
    then fail (sentinel m2m_unauthorized)
    else fail (status_error "update user" response.status)

module _ {W : Type 0} (http : HttpClient W) (cfg : Config) where
  -- the part of getToken that is under the write lock and after the second check
  unfoldable pub fetch_token : Action (Shared W) Error String
  unfolding token_lifetime
  fetch_token =
      catch (outside (http.send (token_request cfg)))
        (λ response (token, w).
          if leb 400 response.status
          then fail (wrap "" (sentinel m2m_unauthorized) (": status " +++ decimal response.status))
              (token, w)
          else (
            ok (text_field response "access_token"),
            (
              some (record {
                access_token = text_field response "access_token";
                expires_at = pos (http.now w) +ℤ token_lifetime (int_field response "expires_in");
              }),
              w,
            ),
          ))
        (λ e. fail (prefixed "fetch m2m token" e))

  unfoldable pub locked_get_token : Action (Shared W) Error String
  unfolding usable_token fetch_token
  locked_get_token (token, w) =
      elim (usable_token token (http.now w)) as (λ _. Result Error String × Shared W) [
        | some t ↦ (ok t, (token, w))
        | none ↦ fetch_token (token, w)
      ]

-- `waits` is what the other users of the client do to its token and to the world while a call
-- waits for the write lock.
module _ {W : Type 0} (http : HttpClient W) (cfg : Config) (waits : Shared W → Shared W) where
  unfoldable pub get_token : Action (Shared W) Error String
  unfolding locked_get_token usable_token
  get_token (token, w) =
      elim (usable_token token (http.now w)) as (λ _. Result Error String × Shared W) [
        | some t ↦ (ok t, (token, w))
        | none ↦ locked_get_token http cfg (waits (token, w))
      ]

  -- CreateUser
  unfoldable pub create_user :
      String → String → String → String → Action (Shared W) Error CreateUserResponse
  unfolding get_token created_user
  create_user username password name email = get_token >>= λ token.
      catch (outside (http.send (create_user_request token username password name email)))
        created_user (λ e. fail (prefixed "create user request" e))

  -- UpdateUser
  unfoldable pub update_user :
      String → String → String → String → String → Action (Shared W) Error (Unit {0})
  unfolding get_token updated_user
  update_user user_id username name phone picture = get_token >>= λ token.
      catch (outside (http.send (update_user_request token user_id username name phone picture)))
        (updated_user user_id) (λ e. fail (prefixed "update user request" e))
