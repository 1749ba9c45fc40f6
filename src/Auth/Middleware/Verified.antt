-- ===== src/Auth/Middleware/Verified.antt =====
-- Which tokens are accepted, and for whom.
use finsplitter.Base.{
  String, ◌≡◌, ◌≢◌, ◌∙◌, sym, false, some, eq_iff, arith, Option-cases, inl, inr,
}
use finsplitter.Effects.{ok, err}
use finsplitter.Effects.Laws.{run_cases, returns, fails, panics}
use finsplitter.Errs.{Error}
use finsplitter.Domain.{UserClaims}
use finsplitter.Strings.{contains_char}
use finsplitter.Logto.Http.{HttpResponse, text_field}
use finsplitter.Auth.Keys.{get_jwks}
use finsplitter.Auth.Middleware.{
  Middleware, user_info_request, claims_from_token, parse_via_user_info, parse_with_keyset,
  parse_and_validate,
}

module _ {W K T : Type 0} (m : Middleware W K T) where
  -- What stands behind claims
  pub data IsVerified (token : String) (claims : UserClaims) (w w' : W) : Type 0 where
    signed :
        (keyset : K) (tok : T) (u v : W)
        → get_jwks m.jwk_client m.jwks_url m.cache w ≡ (ok keyset, u)
        → m.jwk_client.parse keyset token u ≡ (ok tok, v)
        → m.jwk_client.validate m.issuer m.app_client_id tok v ≡ (ok tt, w')
        → m.jwk_client.subject tok ≡ some claims.sub
        → IsVerified token claims w w'
    introspected :
        (e : Error) (v : W) (r : HttpResponse)
        → parse_with_keyset m token w ≡ (err e, v)
        → m.user_info_url ≢ ""
        → contains_char token b'.' ≡ false
        → m.http_client.send (user_info_request m.user_info_url token) v ≡ (ok r, w')
        → r.status ≡ 200
        → claims.sub ≡ text_field r "sub"
        → claims.sub ≢ ""
        → IsVerified token claims w w'

  by_user_info :
      (token : String) (claims : UserClaims) (c : Error) (u w w' : W)
      → parse_with_keyset m token u ≡ (err c, w)
      → contains_char token b'.' ≡ false
      → parse_via_user_info m token w ≡ (ok claims, w')
      → IsVerified token claims u w'
  unfolding parse_via_user_info
  by_user_info token claims c u w w' unsigned opaque h =
      elim (run_cases (m.http_client.send (user_info_request m.user_info_url token) w)) [
        | returns r v e ↦
            introspected c w r unsigned (ground (arith, eq_iff m.user_info_url "")) opaque
              (ground arith) (ground arith) (ground arith)
              (ground (arith, eq_iff (text_field r "sub") ""))
        | fails e v q ↦ absurd (ground arith)
        | panics p v q ↦ absurd (ground arith)
      ]

  by_signature :
      (token : String) (claims : UserClaims) (tok : T) (w v w' : W)
      → parse_with_keyset m token w ≡ (ok tok, v)
      → claims_from_token m tok v ≡ (ok claims, w')
      → IsVerified token claims w w'
  unfolding parse_with_keyset claims_from_token
  by_signature token claims tok w v w' h k =
      elim (run_cases (get_jwks m.jwk_client m.jwks_url m.cache w)) [
        | returns keyset x e ↦ elim (run_cases (m.jwk_client.parse keyset token x)) [
          | returns t y f ↦ elim (run_cases (m.jwk_client.validate m.issuer m.app_client_id t y)) [
            | returns u z g ↦ elim (Option-cases (m.jwk_client.subject tok)) [
              | inl nobody ↦ absurd (ground arith)
              | inr (sub, q) ↦
                  signed keyset tok x y (ground arith) (ground arith) (ground arith) (ground arith)
            ]
            | fails c z g ↦ absurd (ground arith)
            | panics c z g ↦ absurd (ground arith)
          ]
          | fails c y f ↦ absurd (ground arith)
          | panics c y f ↦ absurd (ground arith)
        ]
        | fails c x e ↦ absurd (ground arith)
        | panics c x e ↦ absurd (ground arith)
      ]

  -- Claims are made only of a token that was parsed with the key set, validated for the issuer and
  -- the audience and has the subject of the claims, or of one without a dot for which the user info
  -- endpoint answered 200 with that subject, which is not empty.
  pub parse_and_validate-IsVerified :
      (token : String) (claims : UserClaims) (w w' : W)
      → parse_and_validate m token w ≡ (ok claims, w')
      → IsVerified token claims w w'
  unfolding parse_and_validate
  parse_and_validate-IsVerified token claims w w' h =
      elim (run_cases (parse_with_keyset m token w)) [
        | returns tok v e ↦ by_signature token claims tok w v w' e (ground arith)
        | fails e v q ↦ by_user_info token claims e w v w' q (ground arith) (ground arith)
        | panics p v q ↦ absurd (ground arith)
      ]

  accepted_signed :
      (token : String) (sub : String) (keyset : K) (tok : T) (w u v w' : W)
      → get_jwks m.jwk_client m.jwks_url m.cache w ≡ (ok keyset, u)
      → m.jwk_client.parse keyset token u ≡ (ok tok, v)
      → m.jwk_client.validate m.issuer m.app_client_id tok v ≡ (ok tt, w')
      → m.jwk_client.subject tok ≡ some sub
      → (found : UserClaims) × (parse_and_validate m token w ≡ (ok found, w')) × (found.sub ≡ sub)
  unfolding parse_and_validate parse_with_keyset claims_from_token
  accepted_signed token sub keyset tok w u v w' keys parses valid names =
      elim (run_cases (parse_and_validate m token w)) [
        | returns c x e ↦ (c, ground arith, ground arith)
        | fails z x e ↦ absurd (ground arith)
        | panics p x e ↦ absurd (ground arith)
      ]

  accepted_opaque :
      (token : String) (r : HttpResponse) (e : Error) (w v w' : W)
      → parse_with_keyset m token w ≡ (err e, v)
      → m.user_info_url ≢ ""
      → contains_char token b'.' ≡ false
      → m.http_client.send (user_info_request m.user_info_url token) v ≡ (ok r, w')
      → r.status ≡ 200
      → text_field r "sub" ≢ ""
      → (found : UserClaims) × (parse_and_validate m token w ≡ (ok found, w'))
        × (found.sub ≡ text_field r "sub")
  unfolding parse_and_validate parse_via_user_info
  accepted_opaque token r e w v w' unsigned url opaque sent good named =
      let given = eq_iff (text_field r "sub") "" in
      elim (run_cases (parse_and_validate m token w)) [
        | returns c x q ↦ (
          c,
          ground (arith, given, eq_iff m.user_info_url ""),
          ground (arith, given, eq_iff m.user_info_url ""),
        )
        | fails z x q ↦ absurd (ground (arith, given, eq_iff m.user_info_url ""))
        | panics p x q ↦ absurd (ground (arith, given, eq_iff m.user_info_url ""))
      ]

  -- The other way round: a token that is verified in one of these two ways is accepted, with the
  -- subject that it was verified for.
  pub IsVerified-accepted :
      (token : String) (claims : UserClaims) (w w' : W)
      → IsVerified token claims w w'
      → (found : UserClaims) × (parse_and_validate m token w ≡ (ok found, w'))
        × (found.sub ≡ claims.sub)
  IsVerified-accepted token claims w w' (signed keyset tok u v keys parses valid names) =
      accepted_signed token claims.sub keyset tok w u v w' keys parses valid names
  IsVerified-accepted token claims w w'
        (introspected e v r unsigned url opaque sent good same some_sub) =
      let (found, q, named) =
        accepted_opaque token r e w v w' unsigned url opaque sent good (rw (← same) some_sub) in
      (found, q, named ∙ sym same)
