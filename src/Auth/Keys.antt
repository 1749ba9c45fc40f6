-- ===== src/Auth/Keys.antt =====
-- internal/gateways/http/v1/auth/middleware.go: the key set (JWKS), cached in Valkey.
pub mod Laws
use finsplitter.Base.{String, Option, none, some}
use finsplitter.Base.Int.{ℤ, pos}
use finsplitter.Effects.{Result, ok, Action, pure, fail, lift, catch}
use finsplitter.Errs.{Error, prefixed}
use finsplitter.Cache.{Redis, get_bytes, set_json}

-- The package jwx, for key sets `K` and tokens `T`: Client.Fetch, jwk.Parse, json.Marshal of a key
-- set, jwt.Parse with a key set, jwt.Validate with an issuer and an audience, and the methods
-- Subject and Field of a token. A claim that is no string is `none` inside `some`.
pub record Jwx (W K T : Type 0) : Type 0 where
  pub fetch : String → Action W Error K
  pub parse_set : String → Result Error K
  pub marshal_set : K → Result Error String
  pub parse : K → String → Action W Error T
  pub validate : (issuer audience : String) → T → Action W Error (Unit {0})
  pub subject : T → Option String
  pub field : T → String → Option (Option String)

abbrev pub jwks_cache_key : String
jwks_cache_key = "jwks:keyset"

-- 15 minutes
abbrev pub jwks_cache_ttl : ℤ
jwks_cache_ttl = pos 900000000000

module _ {W K T : Type 0} (jwx : Jwx W K T) (jwks_url : String) where
  -- A failure to store the fetched set is only logged.
  unfoldable pub get_jwks_from_cache : Redis W → Action W Error K
  unfolding get_bytes set_json
  get_jwks_from_cache cache =
      catch (get_bytes cache jwks_cache_key)
        (λ bytes. elim bytes as (λ _. Action W Error K) [
          | some text ↦
              catch (lift (jwx.parse_set text)) pure (λ e. fail (prefixed "cache parse" e))
          | none ↦
              catch (jwx.fetch jwks_url)
                (λ set.
                  catch (set_json cache jwx.marshal_set jwks_cache_key set jwks_cache_ttl)
                    (λ _. pure set) (λ _. pure set))
                (λ e. fail (prefixed "logto fetch" e))
        ])
        (λ e. fail (prefixed "cache read" e))

  unfoldable pub get_jwks : Option (Redis W) → Action W Error K
  unfolding get_jwks_from_cache
  get_jwks none = jwx.fetch jwks_url
  get_jwks (some cache) = catch (get_jwks_from_cache cache) pure (λ _. jwx.fetch jwks_url)
