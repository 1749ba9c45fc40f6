-- ===== src/Auth/Keys/Laws.antt =====
-- What the cache of the key set may and may not do to a request.
use finsplitter.Base.{String, ◌≡◌, ◌≢◌, ◌⊎◌, subst, true, false, some, arith, Bool-cases, inl, inr}
use finsplitter.Base.Int.{ℤ}
use finsplitter.Effects.{ok, err, panic, lift}
use finsplitter.Effects.Laws.{run_cases, returns, fails, panics}
use finsplitter.Errs.{Error, is, redis_nil}
use finsplitter.Cache.{Redis, get_bytes, set_json}
use finsplitter.Auth.Keys.{Jwx, jwks_cache_key, jwks_cache_ttl, get_jwks, get_jwks_from_cache}

-- No call of the cache panics, nor does the coding of key sets.
pub record NeverPanics {W K T : Type 0} (jwx : Jwx W K T) (cache : Redis W) : Type 0 where
  pub get_calm : (key p : String) (w v : W) → cache.get key w ≢ (panic p, v)
  pub set_calm : (key text p : String) (ttl : ℤ) (w v : W) → cache.set key text ttl w ≢ (panic p, v)
  pub parse_calm : (text p : String) → jwx.parse_set text ≢ panic p
  pub marshal_calm : (set : K) (p : String) → jwx.marshal_set set ≢ panic p

module _ {W K T : Type 0} (jwx : Jwx W K T) (url : String) where
  module _ (cache : Redis W) (calm : NeverPanics jwx cache) where
    stores_calm :
        (set : K) (p : String) (w v : W)
        → set_json cache jwx.marshal_set jwks_cache_key set jwks_cache_ttl w ≢ (panic p, v)
    unfolding set_json
    stores_calm set p w v h = elim (run_cases (lift {W = W} (jwx.marshal_set set) w)) [
      | returns text x e ↦ calm.set_calm jwks_cache_key text p jwks_cache_ttl w v (ground arith)
      | fails z x q ↦ absurd (ground arith)
      | panics z x q ↦ calm.marshal_calm set z (ground arith)
    ]

    -- A cache can never make a request fail: where every fetch of the key set succeeds and nothing
    -- panics, getJWKS returns a key set, whatever the cache answers.
    pub get_jwks-returns :
        (fetched : (w : W) → (k : K) × (w' : W) × (jwx.fetch url w ≡ (ok k, w'))) (w : W)
        → (k : K) × (w' : W) × (get_jwks jwx url (some cache) w ≡ (ok k, w'))
    unfolding get_jwks get_jwks_from_cache get_bytes
    get_jwks-returns fetched w = elim (run_cases (cache.get jwks_cache_key w)) [
      | returns text v e ↦ elim (run_cases (lift {W = W} (jwx.parse_set text) v)) [
        | returns k x q ↦ (k, v, ground arith)
        | fails z x q ↦ let (k, y, f) = fetched v in (k, y, ground arith)
        | panics p x q ↦ absurd (calm.parse_calm text p (ground arith))
      ]
      | fails z v e ↦
          let (k, x, f) = fetched v in
          elim (Bool-cases (is z redis_nil)) [
            | inl miss ↦
                elim (run_cases
                  (set_json cache jwx.marshal_set jwks_cache_key k jwks_cache_ttl x)) [
                    | returns u y q ↦ (k, y, ground arith)
                    | fails c y q ↦ (k, y, ground arith)
                    | panics p y q ↦ absurd (stores_calm k p x y q)
                  ]
            | inr broken ↦ (k, x, ground arith)
          ]
      | panics p v e ↦ absurd (calm.get_calm jwks_cache_key p w v e)
    ]

  -- Why a key set that getJWKS returned is not in the cache afterwards: it was fetched, because the
  -- cache could not be read, or held something else than a key set, or the first fetch had failed;
  -- or it could not be stored.
  pub data IsUncached (cache : Redis W) (set : K) (w y : W) : Type 0 where
    unread :
        (e : Error) (v : W)
        → cache.get jwks_cache_key w ≡ (err e, v)
        → is e redis_nil ≡ false
        → jwx.fetch url v ≡ (ok set, y)
        → IsUncached cache set w y
    unreadable :
        (text : String) (e : Error) (v : W)
        → cache.get jwks_cache_key w ≡ (ok text, v)
        → jwx.parse_set text ≡ err e
        → jwx.fetch url v ≡ (ok set, y)
        → IsUncached cache set w y
    fetched_again :
        (e f : Error) (v x : W)
        → cache.get jwks_cache_key w ≡ (err e, v)
        → is e redis_nil ≡ true
        → jwx.fetch url v ≡ (err f, x)
        → jwx.fetch url x ≡ (ok set, y)
        → IsUncached cache set w y
    unstored :
        (e f : Error) (v x : W)
        → cache.get jwks_cache_key w ≡ (err e, v)
        → is e redis_nil ≡ true
        → jwx.fetch url v ≡ (ok set, x)
        → set_json cache jwx.marshal_set jwks_cache_key set jwks_cache_ttl x ≡ (err f, y)
        → IsUncached cache set w y

  -- What is used of the cache and of the coding: a value that was stored, or found, is found again
  -- as long as nothing else happens, and a coded key set decodes to itself.
  pub record KeepsValues (cache : Redis W) : Type 0 where
    pub set_get :
        (key text : String) (ttl : ℤ) (w v : W)
        → cache.set key text ttl w ≡ (ok tt, v)
        → cache.get key v ≡ (ok text, v)
    pub get_get :
        (key text : String) (w v : W)
        → cache.get key w ≡ (ok text, v)
        → cache.get key v ≡ (ok text, v)
    pub coding :
        (set : K) (text : String) → jwx.marshal_set set ≡ ok text → jwx.parse_set text ≡ ok set

  module _ (cache : Redis W) (keeps : KeepsValues cache) where
    -- a key set in the cache is served from there
    served :
        (text : String) (set : K) (w : W)
        → cache.get jwks_cache_key w ≡ (ok text, w)
        → jwx.parse_set text ≡ ok set
        → get_jwks jwx url (some cache) w ≡ (ok set, w)
    unfolding get_jwks get_jwks_from_cache get_bytes
    served text set w there p = ground arith

    stored :
        (set : K) (w v : W)
        → set_json cache jwx.marshal_set jwks_cache_key set jwks_cache_ttl w ≡ (ok tt, v)
        → get_jwks jwx url (some cache) v ≡ (ok set, v)
    unfolding set_json
    stored set w v h = elim (run_cases (lift {W = W} (jwx.marshal_set set) w)) [
      | returns text x e ↦
          served text set v (keeps.set_get jwks_cache_key text jwks_cache_ttl w v (ground arith))
            (keeps.coding set text (ground arith))
      | fails z x q ↦ absurd (ground arith)
      | panics z x q ↦ absurd (ground arith)
    ]

    missed :
        (e : Error) (w v y : W) (set : K)
        → cache.get jwks_cache_key w ≡ (err e, v)
        → is e redis_nil ≡ true
        → get_jwks jwx url (some cache) w ≡ (ok set, y)
        → (get_jwks jwx url (some cache) y ≡ (ok set, y)) ⊎ IsUncached cache set w y
    unfolding get_jwks get_jwks_from_cache get_bytes
    missed e w v y set q miss h = elim (run_cases (jwx.fetch url v)) [
      | returns k x f ↦
          elim (run_cases (set_json cache jwx.marshal_set jwks_cache_key k jwks_cache_ttl x)) [
            | returns u z r ↦
                let same : k ≡ set = ground arith in
                let last : z ≡ y = ground arith in
                inl (
                  subst (λ a. get_jwks jwx url (some cache) y ≡ (ok a, y)) same
                    (subst (λ a. get_jwks jwx url (some cache) a ≡ (ok k, a)) last
                      (stored k x z r)))
            | fails c z r ↦
                let same : k ≡ set = ground arith in
                inr (unstored e c v x q miss (ground arith) (rw (← same) (ground arith)))
            | panics p z r ↦ absurd (ground arith)
          ]
      | fails c x f ↦ inr (fetched_again e c v x q miss f (ground arith))
      | panics p x f ↦ absurd (ground arith)
    ]

    -- With a cache that keeps what it holds: a key set that getJWKS has returned is returned by the
    -- next request too, from the cache and with nothing changed; or it was fetched and is not in the
    -- cache, because the cache could not be read, held something that is no key set or did not take
    -- the key set, or because it was missing there and the first of two fetches failed.
    pub get_jwks_again :
        (w y : W) (set : K)
        → get_jwks jwx url (some cache) w ≡ (ok set, y)
        → (get_jwks jwx url (some cache) y ≡ (ok set, y)) ⊎ IsUncached cache set w y
    unfolding get_jwks get_jwks_from_cache get_bytes
    get_jwks_again w y set h = elim (run_cases (cache.get jwks_cache_key w)) [
      | returns text v q ↦ elim (run_cases (lift {W = W} (jwx.parse_set text) v)) [
        | returns k x r ↦
            let last : v ≡ y = ground arith in
            let there : cache.get jwks_cache_key w ≡ (ok text, y) = rw (← last) q in
            inl (served text set y (keeps.get_get jwks_cache_key text w y there) (ground arith))
        | fails e x r ↦ inr (unreadable text e v q (ground arith) (ground arith))
        | panics p x r ↦ absurd (ground arith)
      ]
      | fails e v q ↦ elim (Bool-cases (is e redis_nil)) [
        | inl miss ↦ missed e w v y set q miss h
        | inr broken ↦ inr (unread e v q broken (ground arith))
      ]
      | panics p v q ↦ absurd (ground arith)
    ]
