-- ===== src/Tests/Journey.antt =====
-- A user who sets up a profile and then uses a protected path.
use finsplitter.Base.{ℕ, String, ◌==◌, ◌≡◌, refl, arith, eq_iff, Option, none, some, if◌then◌else◌}
use finsplitter.Effects.{ok, err, pure}
use finsplitter.Errs.{plain}
use finsplitter.Domain.{UserClaims}
use finsplitter.Domain.Context.{background, new_ctx, with_user_claims}
use finsplitter.Strings.{has_prefix, strip_prefix?}
use finsplitter.Accounts.Handlers.{patch_setup}
use finsplitter.Auth.Paths.{Request}
use finsplitter.Auth.Keys.{Jwx, get_jwks}
use finsplitter.Auth.Middleware.{
  Middleware, Handler, with_context, claims_from_token, claim_as_string, parse_with_keyset,
  parse_and_validate, protected,
}
use finsplitter.Auth.Middleware.Setup.{setup_then_admitted}
use finsplitter.Tests.Accounts.{
  World, users, users-KeepsUsers, updater, claims, signed_in, profile, nobody, set_up, complete,
}

-- Tokens that are their own text; "a.b.c" is the one of the user.
abbrev jwx : Jwx World ℕ String
jwx = record {
  fetch = λ url w. (ok 1, w);
  parse_set = λ text. ok 1;
  marshal_set = λ set. ok "1";
  parse = λ set token w. ((if token == "a.b.c" then ok token else err (plain "bad token")), w);
  validate = λ issuer audience token w. (ok tt, w);
  subject = λ token. some "id";
  field = λ token key.
      if key == "username"
      then some (some "ana")
      else if key == "email"
      then some (some "ana@example.com")
      else if key == "name"
      then some (some "Ana")
      else none;
}

abbrev middleware : Middleware World ℕ String
middleware = record {
  app_client_id = "app";
  user_repo = users;
  jwks_url = "https://id.example.com/oidc/jwks";
  issuer = "https://id.example.com/oidc";
  user_info_url = "https://id.example.com/oidc/me";
  jwk_client = jwx;
  cache = none;
  http_client = record { send = λ request w. (err (plain "unreachable"), w); now = λ w. 0 };
  optional_logger = 1;
  required_logger = 2;
}

-- a handler that answers with the claims of its request
abbrev next : Handler World (Option UserClaims)
next r = pure r.ctx.claims

abbrev listing : Request
listing = record { path = "/card-brands"; authorization = "Bearer a.b.c"; ctx = background }

setup_then_admitted_example :
    protected middleware next listing set_up
    ≡ next (with_context listing (with_user_claims (new_ctx (some background) 2) claims)) set_up
unfolding patch_setup has_prefix strip_prefix? parse_and_validate parse_with_keyset get_jwks
    claims_from_token claim_as_string
setup_then_admitted_example =
    setup_then_admitted middleware next users-KeepsUsers updater signed_in profile claims complete
      listing "a.b.c" nobody set_up refl refl refl refl (ground (arith, eq_iff "a.b.c" "")) refl
      refl
