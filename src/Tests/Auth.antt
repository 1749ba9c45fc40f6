-- ===== src/Tests/Auth.antt =====
-- The authentication middleware.
use finsplitter.Base.{◌⊎◌, eqb, eq_iff}
use finsplitter.Base.{ℕ, String, ◌==◌, ◌≡◌, ◌≢◌, refl, arith, Option, none, some, [], if◌then◌else◌}
use finsplitter.Effects.{Result, ok, err, panic, pure}
use finsplitter.Errs.{Error, sentinel, plain, redis_nil}
use finsplitter.Domain.{UserClaims}
use finsplitter.Domain.Context.{background}
use finsplitter.Ports.{UserRepository}
use finsplitter.Strings.{has_prefix, strip_prefix?}
use finsplitter.Logto.Http.{HttpClient}
use finsplitter.Cache.{Redis}
use finsplitter.Auth.Paths.{Request, is_public_path, is_optional_path}
use finsplitter.Auth.Keys.{Jwx, get_jwks, get_jwks_from_cache}
use finsplitter.Auth.Keys.Laws.{
  NeverPanics, KeepsValues, IsUncached, get_jwks-returns, get_jwks_again,
}
use finsplitter.Auth.Middleware.{
  Middleware, Handler, parse_and_validate, parse_with_keyset, claims_from_token,
}
use finsplitter.Auth.Middleware.Verified.{
  IsVerified, signed, parse_and_validate-IsVerified, IsVerified-accepted,
}
use finsplitter.Auth.Middleware.Laws.{IsGuarded, protected-IsGuarded}

-- The world is what the cache holds. The only key set is the number 1, written "1"; a token is its
-- text, and only "a.b.c" is valid.
abbrev World : Type 0
World = Option String

abbrev jwx : Jwx World ℕ String
jwx = record {
  fetch = λ url w. (ok 1, w);
  parse_set = λ text. if text == "1" then ok 1 else err (plain "no key set");
  marshal_set = λ set. if eqb set 1 then ok "1" else err (plain "no key set");
  parse = λ set token w. ((if token == "a.b.c" then ok token else err (plain "bad token")), w);
  validate = λ issuer audience token w. (ok tt, w);
  subject = λ token. some "ana";
  field = λ token key. none;
}

abbrev cache_get : String → World → Result Error String × World
cache_get key none = (err (sentinel redis_nil), none)
cache_get key (some text) = (ok text, some text)

abbrev redis : Redis World
redis = record { get = cache_get; set = λ key text ttl w. (ok tt, some text) }

abbrev users : UserRepository World
users = record {
  create = λ ctx logto_id w. (err (plain "read only"), w);
  get_by_id = λ ctx id w. (err (plain "read only"), w);
  get_by_logto_user_id = λ ctx logto_id w. (err (plain "read only"), w);
  exists_by_logto_user_id = λ ctx logto_id w. (ok (logto_id == "ana"), w);
}

abbrev http : HttpClient World
http = record {
  send = λ request w. (ok (record { status = 401; texts = []; numbers = [] }), w);
  now = λ w. 0;
}

abbrev middleware : Middleware World ℕ String
middleware = record {
  app_client_id = "app";
  user_repo = users;
  jwks_url = "https://id.example.com/oidc/jwks";
  issuer = "https://id.example.com/oidc";
  user_info_url = "https://id.example.com/oidc/me";
  jwk_client = jwx;
  cache = some redis;
  http_client = http;
  optional_logger = 1;
  required_logger = 2;
}

-- a handler that answers with the claims of its request
abbrev next : Handler World (Option UserClaims)
next r = pure r.ctx.claims

abbrev request : String → String → Request
request path authorization = record { path = path; authorization = authorization; ctx = background }

abbrev ana : UserClaims
ana = record { sub = "ana"; username = ""; email = ""; name = ""; phone = ""; picture = "" }

cache_get_calm : (key p : String) (w v : World) → cache_get key w ≢ (panic p, v)
cache_get_calm key p none v h = ground arith
cache_get_calm key p (some text) v h = ground arith

redis-NeverPanics : NeverPanics jwx redis
redis-NeverPanics = record {
  get_calm = cache_get_calm;
  set_calm = λ key text p ttl w v h. ground arith;
  parse_calm = λ text p h. ground arith;
  marshal_calm = λ set p h. ground arith;
}

get_jwks-returns_example :
    (k : ℕ) × (w : World) × (get_jwks jwx "/jwks" (some redis) (some "broken") ≡ (ok k, w))
get_jwks-returns_example =
    get_jwks-returns jwx "/jwks" redis redis-NeverPanics (λ w. (1, w, refl)) (some "broken")

cache_get_again :
    (key text : String) (w v : World)
    → cache_get key w ≡ (ok text, v)
    → cache_get key v ≡ (ok text, v)
cache_get_again key text none v h = absurd (ground arith)
cache_get_again key text (some other) v h = ground arith

redis-KeepsValues : KeepsValues jwx "/jwks" redis
redis-KeepsValues = record {
  set_get = λ key text ttl w v h. ground arith;
  get_get = cache_get_again;
  coding = λ set text h. ground (arith, eq_iff text "1");
}

get_jwks_again_example :
    (get_jwks jwx "/jwks" (some redis) (some "1") ≡ (ok 1, some "1"))
    ⊎ IsUncached jwx "/jwks" redis 1 none (some "1")
unfolding get_jwks get_jwks_from_cache
get_jwks_again_example = get_jwks_again jwx "/jwks" redis redis-KeepsValues none (some "1") 1 refl

IsVerified-accepted_example :
    (found : UserClaims) × (parse_and_validate middleware "a.b.c" none ≡ (ok found, some "1"))
    × (found.sub ≡ ana.sub)
unfolding get_jwks get_jwks_from_cache
IsVerified-accepted_example =
    IsVerified-accepted middleware "a.b.c" ana none (some "1")
      (signed 1 "a.b.c" (some "1") (some "1") refl refl refl refl)

parse_and_validate-IsVerified_example : IsVerified middleware "a.b.c" ana none (some "1")
unfolding parse_and_validate parse_with_keyset claims_from_token get_jwks get_jwks_from_cache
parse_and_validate-IsVerified_example =
    parse_and_validate-IsVerified middleware "a.b.c" ana none (some "1") refl

protected-IsGuarded_example : IsGuarded middleware next (request "/card-brands" "Bearer a.b.c") none
unfolding is_public_path is_optional_path has_prefix strip_prefix?
protected-IsGuarded_example =
    protected-IsGuarded middleware next (request "/card-brands" "Bearer a.b.c") none refl refl
