-- ===== src/Cache.antt =====
-- pkg/cache/client.go: the wrapper of the Redis client. The Redis client itself and the coding of
-- values as JSON are parameters.
pub mod Connect
use finsplitter.Base.{String, Option, none, some, if◌then◌else◌}
use finsplitter.Base.Int.{ℤ}
use finsplitter.Effects.{Result, Action, pure, fail, catch, lift}
use finsplitter.Errs.{Error, is, prefixed, redis_nil}

-- go-redis: `get` fails with redis.Nil where there is no such key. The last argument of `set` is a
-- duration in nanoseconds.
pub record Redis (W : Type 0) : Type 0 where
  pub get : String → Action W Error String
  pub set : String → String → ℤ → Action W Error (Unit {0})

module _ {W A : Type 0} (raw : Redis W) where
  -- SetJSON, for values that json.Marshal writes by `marshal`
  unfoldable pub set_json : (A → Result Error String) → String → A → ℤ → Action W Error (Unit {0})
  set_json marshal key val ttl =
      catch (lift (marshal val)) (λ bytes. raw.set key bytes ttl)
        (λ e. fail (prefixed "cache marshal" e))

  -- GetJSON, for values that json.Unmarshal reads by `unmarshal`; `none` is (false, nil), and
  -- `some dest` is (true, nil)
  unfoldable pub get_json : (String → Result Error A) → String → Action W Error (Option A)
  get_json unmarshal key =
      catch (raw.get key)
        (λ bytes.
          catch (lift (unmarshal bytes)) (λ dest. pure (some dest))
            (λ e. fail (prefixed "cache unmarshal" e)))
        (λ e. if is e redis_nil then pure none else fail (prefixed "cache get" e))

-- GetBytes
unfoldable pub get_bytes : {W : Type 0} → Redis W → String → Action W Error (Option String)
get_bytes raw key =
    catch (raw.get key) (λ bytes. pure (some bytes))
      (λ e. if is e redis_nil then pure none else fail (prefixed "cache get" e))
