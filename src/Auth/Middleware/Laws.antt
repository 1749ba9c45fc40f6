-- ===== src/Auth/Middleware/Laws.antt =====
-- Who gets through the middleware.
use finsplitter.Base.{
  String, ◌==◌, ◌≡◌, true, false, some, eq_iff, arith, Bool-cases, inl, inr, if◌then◌else◌,
}
use finsplitter.Effects.{ok, err, panic, catch, fail}
use finsplitter.Effects.Laws.{run_cases, returns, fails, panics}
use finsplitter.Errs.{Error}
use finsplitter.Domain.{UserClaims}
use finsplitter.Domain.Context.{new_ctx, with_user_claims}
use finsplitter.Http.{http_error}
use finsplitter.Strings.{has_prefix}
use finsplitter.Auth.Paths.{Request, is_public_path, is_optional_path, extract_bearer_token}
use finsplitter.Auth.Paths.Laws.{card_brands_need_token}
use finsplitter.Auth.Middleware.{
  Middleware, Handler, with_context, parse_and_validate, try_populate_claims, require_auth,
  protected,
}
use finsplitter.Auth.Middleware.Verified.{IsVerified, parse_and_validate-IsVerified}

module _ {W K T : Type 0} (m : Middleware W K T) where
  module _ {B : Type 0} (next : Handler W B) where
    -- How the middleware can end on a path that is neither public nor optional: the answer, with its
    -- cause.
    pub data IsGuarded (r : Request) (w : W) : Type 0 where
      no_token :
          extract_bearer_token r ≡ ""
          → protected m next r w ≡ (err (http_error 401 "missing authorization header"), w)
          → IsGuarded r w
      invalid :
          (c : Error) (v : W)
          → parse_and_validate m (extract_bearer_token r) w ≡ (err c, v)
          → protected m next r w ≡ (err (http_error 401 "invalid or expired token"), v)
          → IsGuarded r w
      unknown :
          (claims : UserClaims) (u v : W)
          → IsVerified m (extract_bearer_token r) claims w u
          → m.user_repo.exists_by_logto_user_id
              (new_ctx (some r.ctx) m.required_logger)
              claims.sub
              u
            ≡ (ok false, v)
          → protected m next r w ≡ (err (http_error 403 "account needs profile setup"), v)
          → IsGuarded r w
      broken :
          (claims : UserClaims) (c : Error) (u v : W)
          → IsVerified m (extract_bearer_token r) claims w u
          → m.user_repo.exists_by_logto_user_id
              (new_ctx (some r.ctx) m.required_logger)
              claims.sub
              u
            ≡ (err c, v)
          → protected m next r w ≡ (err (http_error 500 "internal error"), v)
          → IsGuarded r w
      validation_panics :
          (p : String) (v : W)
          → parse_and_validate m (extract_bearer_token r) w ≡ (panic p, v)
          → protected m next r w ≡ (panic p, v)
          → IsGuarded r w
      lookup_panics :
          (claims : UserClaims) (p : String) (u v : W)
          → IsVerified m (extract_bearer_token r) claims w u
          → m.user_repo.exists_by_logto_user_id
              (new_ctx (some r.ctx) m.required_logger)
              claims.sub
              u
            ≡ (panic p, v)
          → protected m next r w ≡ (panic p, v)
          → IsGuarded r w
      admitted :
          (claims : UserClaims) (u v : W)
          → IsVerified m (extract_bearer_token r) claims w u
          → m.user_repo.exists_by_logto_user_id
              (new_ctx (some r.ctx) m.required_logger)
              claims.sub
              u
            ≡ (ok true, v)
          → protected m next r w
            ≡ next
                (with_context r (with_user_claims (new_ctx (some r.ctx) m.required_logger) claims))
                v
          → IsGuarded r w

    -- On a path that is neither public nor optional, the middleware panics, or answers as the next
    -- handler does, or with an error that says why: 401 if there is no token or it is not valid, 403
    -- if its claims are verified but no user with their subject exists, and 500 if the lookup of
    -- that user fails. The next handler is asked only if claims were verified for the token and a
    -- user with their subject exists, and the request then carries these claims.
    pub protected-IsGuarded :
        (r : Request) (w : W)
        → is_public_path r.path ≡ false
        → is_optional_path r.path ≡ false
        → IsGuarded r w
    unfolding protected require_auth
    protected-IsGuarded r w public optional = elim (Bool-cases (extract_bearer_token r == "")) [
      | inl none_given ↦
          no_token (ground (arith, eq_iff (extract_bearer_token r) "")) (ground arith)
      | inr given ↦ elim (run_cases (parse_and_validate m (extract_bearer_token r) w)) [
        | returns claims u e ↦
            let ctx = new_ctx (some r.ctx) m.required_logger in
            let verified = parse_and_validate-IsVerified m (extract_bearer_token r) claims w u e in
            elim (run_cases (m.user_repo.exists_by_logto_user_id ctx claims.sub u)) [
              | returns there v q ↦ elim (Bool-cases there) [
                | inl known ↦ admitted claims u v verified (ground arith) (ground arith)
                | inr stranger ↦ unknown claims u v verified (ground arith) (ground arith)
              ]
              | fails z v q ↦ broken claims z u v verified q (ground arith)
              | panics p v q ↦ lookup_panics claims p u v verified q (ground arith)
            ]
        | fails z v e ↦ invalid z v e (ground arith)
        | panics p v e ↦ validation_panics p v e (ground arith)
      ]
    ]

    -- On an optional path that is not public, a request without a token goes on as it is, one with a
    -- valid token goes on with its claims, whether or not the user exists, and one with an invalid
    -- token is answered by a 401.
    pub protected_optional :
        (r : Request) (w : W)
        → is_public_path r.path ≡ false
        → is_optional_path r.path ≡ true
        → protected m next r w
          ≡ (if extract_bearer_token r == ""
                then next r
                else catch
                    (parse_and_validate m (extract_bearer_token r))
                    (λ claims. next (
                      with_context r
                        (with_user_claims (new_ctx (some r.ctx) m.optional_logger) claims)))
                    (λ _. fail (http_error 401 "invalid or expired token")))
              w
    unfolding protected try_populate_claims
    protected_optional r w public optional =
        elim (run_cases (parse_and_validate m (extract_bearer_token r) w)) [
          | returns claims v e ↦ ground arith
          | fails z v e ↦ ground arith
          | panics p v e ↦ ground arith
        ]

    -- A request for a path that starts with "/card-brands" and has no token is answered by a 401,
    -- and nothing is called.
    pub card_brands_without_token :
        (r : Request) (w : W)
        → has_prefix r.path "/card-brands" ≡ true
        → extract_bearer_token r ≡ ""
        → protected m next r w ≡ (err (http_error 401 "missing authorization header"), w)
    unfolding protected require_auth
    card_brands_without_token r w h missing =
        let (public, optional) = card_brands_need_token r.path h in
        ground (arith, eq_iff (extract_bearer_token r) "")
