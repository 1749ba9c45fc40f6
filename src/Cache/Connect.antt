-- ===== src/Cache/Connect.antt =====
-- pkg/cache/client.go: New, Close and Ping, over go-redis and redisotel, which are a parameter; and
-- newRedisClient of cmd/api/main.go.
use finsplitter.Base.{String, ◌≡◌, ◌⊎◌, Option, none, some, List, [], ◌∷◌, arith, inl, inr}
use finsplitter.Effects.{Result, ok, err, Action, pure, fail, lift, catch}
use finsplitter.Effects.Laws.{run_cases, returns, fails, panics}
use finsplitter.Errs.{Error, prefixed}

-- `O` are the parsed options of a connection, and `C` the clients.
pub record RedisPackage (W O C : Type 0) : Type 0 where
  pub parse_url : String → Result Error O
  pub new_client : O → W → C × W
  pub instrument_tracing : C → Action W Error (Unit {0})
  pub instrument_metrics : C → Action W Error (Unit {0})
  pub close_client : C → Action W Error (Unit {0})
  pub ping_client : C → Action W Error (Unit {0})

module _ {W O C : Type 0} (redis : RedisPackage W O C) where
  -- `for _, o := range opts`
  unfoldable pub apply_each : List (C → W → W) → C → W → W
  apply_each [] c w = w
  apply_each (o ∷ opts) c w = apply_each opts c (o c w)

  -- `_ = c.raw.Close()`, and the return of the error
  unfoldable pub close_and_fail : C → Error → Action W Error C
  close_and_fail c e = catch (redis.close_client c) (λ _. fail e) (λ _. fail e)

  unfoldable pub instrumented : C → Action W Error C
  unfolding close_and_fail
  instrumented c =
      catch (redis.instrument_tracing c)
        (λ _.
          catch (redis.instrument_metrics c) (λ _. pure c)
            (λ e. close_and_fail c (prefixed "cache otel metrics" e)))
        (λ e. close_and_fail c (prefixed "cache otel tracing" e))

  unfoldable pub new : String → List (C → W → W) → Action W Error C
  unfolding apply_each instrumented
  new url opts =
      catch (lift (redis.parse_url url))
        (λ opt w. let (c, v) = redis.new_client opt w in instrumented c (apply_each opts c v))
        (λ e. fail (prefixed "cache parse url" e))

  unfoldable pub close : C → Action W Error (Unit {0})
  close c = redis.close_client c

  unfoldable pub ping : C → Action W Error (Unit {0})
  ping c = redis.ping_client c

  -- the application goes on without a cache
  unfoldable pub new_redis_client : String → Action W Error (Option C)
  unfolding new
  new_redis_client url = catch (new url []) (λ c. pure (some c)) (λ _. pure none)

  -- The client that is given up has been closed.
  abbrev pub IsClosed : C → W → Type 0
  IsClosed c v = (r : Result Error (Unit {0})) × (x : W) × (redis.close_client c x ≡ (r, v))

  close_and_fail-IsClosed :
      (c : C) (e z : Error) (w v : W) → close_and_fail c e w ≡ (err z, v) → IsClosed c v
  unfolding close_and_fail
  close_and_fail-IsClosed c e z w v h = elim (run_cases (redis.close_client c w)) [
    | returns u x q ↦ (ok u, w, ground arith)
    | fails z' x q ↦ (err z', w, ground arith)
    | panics p x q ↦ absurd (ground arith)
  ]

  instrumented-IsClosed :
      (c : C) (e : Error) (w v : W) → instrumented c w ≡ (err e, v) → IsClosed c v
  unfolding instrumented
  instrumented-IsClosed c e w v h = elim (run_cases (redis.instrument_tracing c w)) [
    | returns u x q ↦ elim (run_cases (redis.instrument_metrics c x)) [
      | returns u' y p ↦ absurd (ground arith)
      | fails z y p ↦
          close_and_fail-IsClosed c (prefixed "cache otel metrics" z) e y v (ground arith)
      | panics z y p ↦ absurd (ground arith)
    ]
    | fails z x q ↦ close_and_fail-IsClosed c (prefixed "cache otel tracing" z) e x v (ground arith)
    | panics z x q ↦ absurd (ground arith)
  ]

  -- If New fails, either the URL was refused and nothing was called, or the client that had been
  -- made has been closed.
  pub new-IsClosed :
      (url : String) (opts : List (C → W → W)) (e : Error) (w v : W)
      → new url opts w ≡ (err e, v)
      → (v ≡ w) ⊎ ((c : C) × IsClosed c v)
  unfolding new
  new-IsClosed url opts e w v h = elim (run_cases (lift {W = W} (redis.parse_url url) w)) [
    | returns opt x q ↦
        let c = (redis.new_client opt w).0 in
        inr (
          c,
          instrumented-IsClosed c e (apply_each opts c (redis.new_client opt w).1) v (ground arith),
        )
    | fails z x q ↦ inl (ground arith)
    | panics p x q ↦ absurd (ground arith)
  ]
