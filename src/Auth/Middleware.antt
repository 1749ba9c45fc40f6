-- ===== src/Auth/Middleware.antt =====
-- internal/gateways/http/v1/auth/middleware.go: from the request to the claims, and the middleware.
pub mod Verified
pub mod Frame
pub mod Laws
pub mod Setup
use finsplitter.Base.{
  ℕ, String, ◌==◌, ◌+++◌, Bool, true, false, Option, none, some, List, [], eqb, get_or,
  if◌then◌else◌,
}
use finsplitter.Effects.{Result, ok, err, Action, pure, fail, lift, catch, ◌>>=◌, ◌>>◌}
use finsplitter.Errs.{Error, plain, prefixed, status_error, sentinel_text, needs_setup}
use finsplitter.Domain.{UserClaims}
use finsplitter.Domain.Context.{Ctx, new_ctx, with_user_claims}
use finsplitter.Http.{HttpError, http_error}
use finsplitter.Ports.{UserRepository}
use finsplitter.Strings.{trim_right_slash, contains_char}
use finsplitter.Cache.{Redis}
use finsplitter.Logto.Http.{HttpRequest, HttpClient, text_field}
use finsplitter.Auth.Paths.{Request, is_public_path, is_optional_path, extract_bearer_token}
use finsplitter.Auth.Keys.{Jwx, get_jwks}

-- `optional_logger` and `required_logger` are the loggers that the two branches put into the
-- context. `http_client` is never nil, since NewMiddleware sets it, so the client that
-- userInfoClient makes in place of a nil one is left out.
pub record Middleware (W K T : Type 0) : Type 0 where
  pub app_client_id : String
  pub user_repo : UserRepository W
  pub jwks_url : String
  pub issuer : String
  pub user_info_url : String
  pub jwk_client : Jwx W K T
  pub cache : Option (Redis W)
  pub http_client : HttpClient W
  pub optional_logger : ℕ
  pub required_logger : ℕ

unfoldable pub new_middleware :
    {W K T : Type 0}
    → (oidc_endpoint expected_issuer app_client_id : String) → UserRepository W
    → (optional_logger required_logger : ℕ) → Option (Redis W)
    → Jwx W K T
    → HttpClient W
    → Middleware W K T
unfolding trim_right_slash
new_middleware oidc_endpoint expected_issuer app_client_id user_repo optional required cache jwx
      http =
    record {
      app_client_id = app_client_id;
      user_repo = user_repo;
      jwks_url = trim_right_slash oidc_endpoint +++ "/jwks";
      issuer = trim_right_slash expected_issuer;
      user_info_url = trim_right_slash oidc_endpoint +++ "/me";
      jwk_client = jwx;
      cache = cache;
      http_client = http;
      optional_logger = optional;
      required_logger = required;
    }

-- An HTTP handler, with what it answers to a request
abbrev pub Handler : Type 0 → Type 0 → Type 0
Handler W B = Request → Action W HttpError B

-- r.WithContext
abbrev pub with_context : Request → Ctx → Request
with_context r ctx = record r { ctx = ctx }

abbrev pub user_info_request : String → String → HttpRequest
user_info_request url token = record {
  method = "GET";
  url = url;
  auth_token = some token;
  form = [];
  json = [];
  result = true;
  result_error = false;
}

module _ {W K T : Type 0} (m : Middleware W K T) where
  unfoldable pub claim_as_string : T → String → String
  claim_as_string tok key = get_or (get_or (m.jwk_client.field tok key) none) ""

  unfoldable pub claims_from_token : T → Action W Error UserClaims
  unfolding claim_as_string
  claims_from_token tok = elim (m.jwk_client.subject tok) as (λ _. Action W Error UserClaims) [
    | none ↦ fail (plain "token missing subject claim")
    | some sub ↦ pure (record {
      sub = sub;
      username = claim_as_string tok "username";
      email = claim_as_string tok "email";
      name = claim_as_string tok "name";
      phone = claim_as_string tok "phone";
      picture = claim_as_string tok "picture";
    })
  ]

  unfoldable pub parse_via_user_info : String → Action W Error UserClaims
  parse_via_user_info token =
      if m.user_info_url == ""
      then fail (plain "userinfo endpoint not configured")
      else catch (m.http_client.send (user_info_request m.user_info_url token))
          (λ r.
            if eqb r.status 200
            then if text_field r "sub" == ""
              then fail (plain "userinfo: missing sub claim")
              else pure (record {
                sub = text_field r "sub";
                username = text_field r "username";
                email = text_field r "email";
                name = text_field r "name";
                phone = text_field r "phone";
                picture = text_field r "picture";
              })
            else fail (status_error "userinfo" r.status))
          (λ e. fail (prefixed "userinfo call" e))

  unfoldable pub parse_with_keyset : String → Action W Error T
  unfolding get_jwks
  parse_with_keyset token = get_jwks m.jwk_client m.jwks_url m.cache >>= λ keyset.
      m.jwk_client.parse keyset token >>= λ tok.
      m.jwk_client.validate m.issuer m.app_client_id tok >> pure tok

  unfoldable pub parse_and_validate : String → Action W Error UserClaims
  unfolding parse_with_keyset claims_from_token parse_via_user_info contains_char
  parse_and_validate token = catch (parse_with_keyset token) claims_from_token (λ _.
      if contains_char token b'.'
      then fail (plain "invalid or expired token")
      else parse_via_user_info token)

  -- The request with its claims, or nothing if it has no token
  unfoldable pub try_populate_claims : Request → Action W Error (Option Request)
  unfolding extract_bearer_token parse_and_validate new_ctx with_user_claims
  try_populate_claims r =
      if extract_bearer_token r == ""
      then pure none
      else parse_and_validate (extract_bearer_token r) >>= λ claims.
          pure (
            some
              (with_context r (with_user_claims (new_ctx (some r.ctx) m.optional_logger) claims)))

  module _ {B : Type 0} (next : Handler W B) where
    unfoldable pub require_auth : Handler W B
    unfolding extract_bearer_token parse_and_validate new_ctx with_user_claims
    require_auth r =
        let ctx = new_ctx (some r.ctx) m.required_logger in
        if extract_bearer_token r == ""
        then fail (http_error 401 "missing authorization header")
        else catch (parse_and_validate (extract_bearer_token r))
            (λ claims.
              catch (m.user_repo.exists_by_logto_user_id ctx claims.sub)
                (λ exists.
                  if exists
                  then next (with_context r (with_user_claims ctx claims))
                  else fail (http_error 403 (sentinel_text needs_setup)))
                (λ _. fail (http_error 500 "internal error")))
            (λ _. fail (http_error 401 "invalid or expired token"))

    -- Protected
    unfoldable pub protected : Handler W B
    unfolding is_public_path is_optional_path try_populate_claims require_auth
    protected r =
        if is_public_path r.path
        then next r
        else if is_optional_path r.path
        then catch (try_populate_claims r) (λ found. next (get_or found r))
            (λ _. fail (http_error 401 "invalid or expired token"))
        else require_auth r
