-- ===== src/Logto/Client/Token.antt =====
-- The cached access token of the Management API client: when it is served, when it is fetched, and
-- how long it is used.
use finsplitter.Base.{
  ℕ, String, ◌≡◌, refl, Option, none, some, arith, Option-cases, inl, inr, ◌+◌, ◌*◌, ◌-◌, ◌^◌, ◌<◌,
  ◌≤◌,
}
use finsplitter.Base.Int.{ℤ, pos, ◌+ℤ◌}
use finsplitter.Effects.{ok}
use finsplitter.Effects.Laws.{run_cases, returns, fails, panics}
use finsplitter.Logto.Http.{HttpResponse, HttpClient, text_field, int_field}
use finsplitter.Logto.Client.{
  Config, CachedToken, Shared, usable_token, token_lifetime, token_request, fetch_token,
  locked_get_token, get_token,
}

-- Why a call of getToken may return the token `c`, in the world `w'` that it leaves.
pub data IsServed {W : Type 0} (http : HttpClient W) (cfg : Config) (c : CachedToken) (w' : W)
    : Type 0 where
  cached : usable_token (some c) (http.now w') ≡ some c.access_token → IsServed http cfg c w'
  fetched :
      (v : W) (response : HttpResponse)
      → http.send (token_request cfg) v ≡ (ok response, w')
      → response.status < 400
      → c.access_token ≡ text_field response "access_token"
      → c.expires_at ≡ pos (http.now w') +ℤ token_lifetime (int_field response "expires_in")
      → IsServed http cfg c w'

usable_token-eq-some :
    (token : Option CachedToken) (now : ℕ) (t : String)
    → usable_token token now ≡ some t
    → (c : CachedToken) × (token ≡ some c) × (c.access_token ≡ t)
unfolding usable_token
usable_token-eq-some none now t h = absurd (ground arith)
usable_token-eq-some (some c) now t h = (c, refl, ground arith)

module _ {W : Type 0} (http : HttpClient W) (cfg : Config) where
  -- The token that a call returned, as the client holds it afterwards.
  abbrev pub IsHeld : String → Shared W → Type 0
  IsHeld t (token, w) =
      (c : CachedToken) × (token ≡ some c) × (c.access_token ≡ t) × IsServed http cfg c w

  cached-IsHeld :
      (token : Option CachedToken) (w : W) (t : String)
      → usable_token token (http.now w) ≡ some t
      → IsHeld t (token, w)
  cached-IsHeld token w t h =
      let (c, e, q) = usable_token-eq-some token (http.now w) t h in
      (c, e, q, cached (rw (q, ← e) h))

  fetch_token-IsHeld :
      (s s' : Shared W) (t : String) → fetch_token http cfg s ≡ (ok t, s') → IsHeld t s'
  unfolding fetch_token
  fetch_token-IsHeld (token, w) (token', w') t h =
      elim (run_cases (http.send (token_request cfg) w)) [
        | returns r v e ↦
            let c : CachedToken = record {
              access_token = text_field r "access_token";
              expires_at = pos (http.now w') +ℤ token_lifetime (int_field r "expires_in");
            } in
            (c, ground arith, ground arith, fetched w r (ground arith) (ground arith) refl refl)
        | fails e v q ↦ absurd (ground arith)
        | panics p v q ↦ absurd (ground arith)
      ]

pub token_lifetime_lem : (n : ℕ) → n < 2 ^ 33 → token_lifetime (pos n) ≡ pos ((n - 60) * 10 ^ 9)
unfolding token_lifetime
token_lifetime_lem n h = ground arith

usable_token-lt :
    (l : ℤ) (m at now : ℕ) (t u : String)
    → l ≡ pos m
    → usable_token (some (record { access_token = t; expires_at = pos at +ℤ l })) now ≡ some u
    → now < at + m
unfolding usable_token
usable_token-lt l m at now t u e h = ground arith

-- A token that was fetched at some time, with a lifetime of `n` seconds (below 2 ^ 33), is served
-- at a later time only until 60 seconds before the end of its lifetime, and never if the lifetime is 60 seconds or
-- less.
pub usable_token-margin :
    (n at now : ℕ) (t u : String)
    → n < 2 ^ 33
    → at ≤ now
    → usable_token
        (some (record { access_token = t; expires_at = pos at +ℤ token_lifetime (pos n) }))
        now
      ≡ some u
    → (60 < n) × (now + 60 * 10 ^ 9 < at + n * 10 ^ 9)
usable_token-margin n at now t u h later k =
    let early =
      usable_token-lt (token_lifetime (pos n)) ((n - 60) * 10 ^ 9) at now t u
        (token_lifetime_lem n h) k in
    (ground arith, ground arith)

module _ {W : Type 0} (http : HttpClient W) (cfg : Config) (waits : Shared W → Shared W) where
  locked-IsHeld :
      (s s' : Shared W) (t : String)
      → locked_get_token http cfg s ≡ (ok t, s')
      → IsHeld http cfg t s'
  unfolding locked_get_token
  locked-IsHeld (token, w) (token', w') t h =
      elim (Option-cases (usable_token token (http.now w))) [
        | inl expired ↦ fetch_token-IsHeld http cfg (token, w) (token', w') t (ground arith)
        | inr (u, q) ↦ cached-IsHeld http cfg token' w' t (ground arith)
      ]

  -- A token that a call returns is the one that the client holds afterwards, and it is unexpired at
  -- that time, or the identity provider has issued it with a status below 400 as the last thing
  -- that happened, and it is kept for the lifetime that the response gives.
  pub get_token-IsHeld :
      (s s' : Shared W) (t : String)
      → get_token http cfg waits s ≡ (ok t, s')
      → IsHeld http cfg t s'
  unfolding get_token
  get_token-IsHeld (token, w) (token', w') t h =
      elim (Option-cases (usable_token token (http.now w))) [
        | inl expired ↦ locked-IsHeld (waits (token, w)) (token', w') t (ground arith)
        | inr (u, q) ↦ cached-IsHeld http cfg token' w' t (ground arith)
      ]

  -- If the client's token was not usable, and another call has stored one that is usable while this
  -- one waited for the lock, this call returns that token and sends no request: it leaves what the
  -- others left.
  pub get_token-waited :
      (s' : Shared W) (w : W) (token : Option CachedToken) (t : String)
      → usable_token token (http.now w) ≡ none
      → waits (token, w) ≡ s'
      → usable_token s'.0 (http.now s'.1) ≡ some t
      → get_token http cfg waits (token, w) ≡ (ok t, s')
  unfolding get_token locked_get_token
  get_token-waited (token', w') w token t old other h = ground arith

  -- After a call has returned a token, and as long as the client's token is usable, every further
  -- call returns the same token, sends nothing and changes nothing.
  pub get_token_again :
      (s s' : Shared W) (t u : String) (v : W)
      → get_token http cfg waits s ≡ (ok t, s')
      → usable_token s'.0 (http.now v) ≡ some u
      → get_token http cfg waits (s'.0, v) ≡ (ok t, (s'.0, v))
  unfolding get_token
  get_token_again s (token', w') t u v h fresh =
      let (c, e, q, served) = get_token-IsHeld s (token', w') t h in
      let (d, f, r) = usable_token-eq-some token' (http.now v) u fresh in
      let same : d.access_token ≡ c.access_token = ground arith in ground arith
