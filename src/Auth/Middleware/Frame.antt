-- ===== src/Auth/Middleware/Frame.antt =====
-- What the validation of a token leaves alone: a part of the world that the identity provider, the
-- cache and the key sets do not touch.
use finsplitter.Base.{arith, String, ◌≡◌, refl, Option, none, some}
use finsplitter.Base.Int.{ℤ}
use finsplitter.Effects.{Action, lift}
use finsplitter.Effects.Laws.{run_cases, returns, fails, panics}
use finsplitter.Cache.{Redis, get_bytes, set_json}
use finsplitter.Logto.Http.{HttpRequest}
use finsplitter.Auth.Keys.{jwks_cache_key, jwks_cache_ttl, get_jwks, get_jwks_from_cache}
use finsplitter.Auth.Middleware.{
  Middleware, user_info_request, claims_from_token, parse_via_user_info, parse_with_keyset,
  parse_and_validate,
}

-- The call leaves the part alone, however it ends.
abbrev pub Keeps : {W P E A : Type 0} → (W → P) → Action W E A → Type 0
Keeps {W = W} part m = (w : W) → part (m w).1 ≡ part w

module _ {W K T P : Type 0} (m : Middleware W K T) (part : W → P) where
  -- The calls of packages and services
  pub record IsOutside : Type 0 where
    pub fetches : (url : String) → Keeps part (m.jwk_client.fetch url)
    pub parses : (set : K) (token : String) → Keeps part (m.jwk_client.parse set token)
    pub validates :
        (issuer audience : String) (tok : T)
        → Keeps part (m.jwk_client.validate issuer audience tok)
    pub sends : (request : HttpRequest) → Keeps part (m.http_client.send request)
    pub reads : (cache : Redis W) (key : String) → m.cache ≡ some cache → Keeps part (cache.get key)
    pub stores :
        (cache : Redis W) (key text : String) (ttl : ℤ)
        → m.cache ≡ some cache
        → Keeps part (cache.set key text ttl)

  module _ (out : IsOutside) where
    stores-Keeps :
        (cache : Redis W) (set : K)
        → m.cache ≡ some cache
        → Keeps part (set_json cache m.jwk_client.marshal_set jwks_cache_key set jwks_cache_ttl)
    unfolding set_json
    stores-Keeps cache set e w = elim (run_cases (lift (m.jwk_client.marshal_set set) w)) [
      | returns text v q ↦ ground (arith, out.stores cache jwks_cache_key text jwks_cache_ttl e w)
      | fails c v q ↦ ground arith
      | panics p v q ↦ ground arith
    ]

    get_jwks_from_cache-Keeps :
        (cache : Redis W)
        → m.cache ≡ some cache
        → Keeps part (get_jwks_from_cache m.jwk_client m.jwks_url cache)
    unfolding get_jwks_from_cache get_bytes
    get_jwks_from_cache-Keeps cache e w =
        let read = out.reads cache jwks_cache_key e w in
        elim (run_cases (cache.get jwks_cache_key w)) [
          | returns text v q ↦ ground (arith, read)
          | fails c v q ↦ elim (run_cases (m.jwk_client.fetch m.jwks_url v)) [
            | returns set x f ↦
                ground (arith, read, out.fetches m.jwks_url v, stores-Keeps cache set e x)
            | fails z x f ↦ ground (arith, read, out.fetches m.jwks_url v)
            | panics p x f ↦ ground (arith, read, out.fetches m.jwks_url v)
          ]
          | panics p v q ↦ ground (arith, read)
        ]

    get_jwks-Keeps :
        (cache : Option (Redis W))
        → m.cache ≡ cache
        → Keeps part (get_jwks m.jwk_client m.jwks_url cache)
    unfolding get_jwks
    get_jwks-Keeps none e w = out.fetches m.jwks_url w
    get_jwks-Keeps (some cache) e w =
        let first = get_jwks_from_cache-Keeps cache e w in
        elim (run_cases (get_jwks_from_cache m.jwk_client m.jwks_url cache w)) [
          | returns set v q ↦ ground (arith, first)
          | fails c v q ↦ ground (arith, first, out.fetches m.jwks_url v)
          | panics p v q ↦ ground (arith, first)
        ]

    parse_with_keyset-Keeps : (token : String) → Keeps part (parse_with_keyset m token)
    unfolding parse_with_keyset
    parse_with_keyset-Keeps token w =
        let first = get_jwks-Keeps m.cache refl w in
        elim (run_cases (get_jwks m.jwk_client m.jwks_url m.cache w)) [
          | returns set v q ↦ elim (run_cases (m.jwk_client.parse set token v)) [
            | returns tok x f ↦
                ground (
                  arith,
                  first,
                  out.parses set token v,
                  out.validates m.issuer m.app_client_id tok x,
                )
            | fails c x f ↦ ground (arith, first, out.parses set token v)
            | panics p x f ↦ ground (arith, first, out.parses set token v)
          ]
          | fails c v q ↦ ground (arith, first)
          | panics p v q ↦ ground (arith, first)
        ]

    parse_via_user_info-Keeps : (token : String) → Keeps part (parse_via_user_info m token)
    unfolding parse_via_user_info
    parse_via_user_info-Keeps token w =
        let request = user_info_request m.user_info_url token in
        elim (run_cases (m.http_client.send request w)) [
          | returns r v q ↦ ground (arith, out.sends request w)
          | fails c v q ↦ ground (arith, out.sends request w)
          | panics p v q ↦ ground (arith, out.sends request w)
        ]

    pub parse_and_validate-Keeps : (token : String) → Keeps part (parse_and_validate m token)
    unfolding parse_and_validate claims_from_token
    parse_and_validate-Keeps token w =
        let first = parse_with_keyset-Keeps token w in
        elim (run_cases (parse_with_keyset m token w)) [
          | returns tok v q ↦ ground (arith, first)
          | fails c v q ↦ ground (arith, first, parse_via_user_info-Keeps token v)
          | panics p v q ↦ ground (arith, first)
        ]
