-- ===== src/Api/Security.antt =====
-- What the routes declare of tokens, and what the middleware asks for.
use finsplitter.Base.{
  String, ◌+++◌, ◌≡◌, refl, Bool, true, false, not, List, [], ◌∷◌, some, any, if◌then◌else◌,
}
use finsplitter.Effects.{err}
use finsplitter.Domain.{uuid_string}
use finsplitter.Http.{http_error}
use finsplitter.Strings.{has_prefix, strip_prefix?}
use finsplitter.Strings.Laws.{has_prefix-append}
use finsplitter.CardBrands.Routes.{
  CardBrandRequest, list, create, get, update, delete, card_brand_operation,
}
use finsplitter.Auth.Paths.{Request, is_public_path, is_optional_path, extract_bearer_token}
use finsplitter.Auth.Middleware.{Middleware, protected, try_populate_claims}
use finsplitter.Auth.Middleware.Laws.{card_brands_without_token}
use finsplitter.Api.{
  ApiRequest, register, me, device_auth, device_poll, device_refresh, device_revoke, auth,
  card_brands, profile_setup, liveness, readiness, auth_operation, operation, Services, handler,
  routes,
}

abbrev is_free : List String → Bool
is_free [] = true
is_free _ = false

-- There are alternatives, and none of them is free.
abbrev pub needs_token : List (List String) → Bool
needs_token [] = false
needs_token (first ∷ more) = not (any is_free (first ∷ more))

pub card_brand_paths :
    (request : CardBrandRequest)
    → has_prefix (card_brand_operation request).path "/card-brands" ≡ true
unfolding card_brand_operation has_prefix strip_prefix?
card_brand_paths (list _) = refl
card_brand_paths (create _) = refl
card_brand_paths (get id) = has_prefix-append "/card-brands" ("/" +++ uuid_string id)
card_brand_paths (update input) = has_prefix-append "/card-brands" ("/" +++ uuid_string input.id)
card_brand_paths (delete id) = has_prefix-append "/card-brands" ("/" +++ uuid_string id)

card_brands_need_tokens :
    (request : CardBrandRequest) → needs_token (card_brand_operation request).security ≡ true
unfolding card_brand_operation
card_brands_need_tokens (list _) = refl
card_brands_need_tokens (create _) = refl
card_brands_need_tokens (get _) = refl
card_brands_need_tokens (update _) = refl
card_brands_need_tokens (delete _) = refl

module _ {W K T : Type 0} (m : Middleware W K T) (s : Services W) where
  -- A request without a token, for any route: it is answered by a 401, and nothing is called, where
  -- the API description of the route asks for a token, and reaches the handler of the route
  -- otherwise.
  pub routes_without_token :
      (request : ApiRequest) (r : Request) (w : W)
      → r.path ≡ (operation request).path
      → extract_bearer_token r ≡ ""
      → routes s (some m) request r w ≡ (
          if needs_token (operation request).security
          then (err (http_error 401 "missing authorization header"), w)
          else handler s request r w)
  unfolding routes protected operation auth_operation handler try_populate_claims is_public_path
      is_optional_path has_prefix strip_prefix?
  routes_without_token (card_brands request) r w path missing =
      rw (card_brands_need_tokens request) (
        card_brands_without_token m (handler s (card_brands request)) r w
          (rw path (card_brand_paths request)) missing)
  routes_without_token (auth (register _)) r w path missing = rw path refl
  routes_without_token (auth me) r w path missing = rw (path, missing) refl
  routes_without_token (auth (device_auth _)) r w path missing = rw path refl
  routes_without_token (auth (device_poll _)) r w path missing = rw path refl
  routes_without_token (auth (device_refresh _)) r w path missing = rw path refl
  routes_without_token (auth (device_revoke _)) r w path missing = rw path refl
  routes_without_token (profile_setup _) r w path missing = rw (path, missing) refl
  routes_without_token liveness r w path missing = rw path refl
  routes_without_token readiness r w path missing = rw path refl
