-- ===== src/Auth/Middleware/Setup.antt =====
-- From profile setup to the protected paths.
use finsplitter.Base.{String, ◌+++◌, ◌≡◌, ◌≢◌, refl, ◌∙◌, true, some, eq_iff, arith}
use finsplitter.Effects.{ok}
use finsplitter.Domain.{UserClaims}
use finsplitter.Domain.Context.{Ctx, new_ctx, with_user_claims}
use finsplitter.Strings.{has_prefix}
use finsplitter.Logto.{LogtoUserUpdater}
use finsplitter.Accounts.Handlers.{MessageBody, SetupBody, patch_setup}
use finsplitter.Accounts.Handlers.Setup.{KeepsUsers, patch_setup-IsSetUp}
use finsplitter.Auth.Paths.{Request}
use finsplitter.Auth.Paths.Laws.{card_brands_need_token, extract_bearer_token-append}
use finsplitter.Auth.Middleware.{
  Middleware, Handler, with_context, parse_and_validate, require_auth, protected,
}

module _ {W K T B : Type 0} (m : Middleware W K T) (next : Handler W B) where
  new_ctx-tx : (ctx : Ctx) → (new_ctx (some ctx) m.required_logger).tx ≡ ctx.tx
  unfolding new_ctx
  new_ctx-tx ctx = refl

  -- After a successful profile setup, a request for the card brands with a token that is valid for
  -- the same claims reaches the next handler, with these claims in its context, for a repository
  -- that finds the users that it has created, and if neither request is in a transaction of its own
  -- and the validation of the token changes nothing.
  pub setup_then_admitted :
      (keeps : KeepsUsers m.user_repo) (logto : LogtoUserUpdater W) (ctx : Ctx) (body : SetupBody)
      (claims : UserClaims) (reply : MessageBody) (r : Request) (token : String) (w w' : W)
      → ctx.claims ≡ some claims
      → patch_setup m.user_repo logto ctx body w ≡ (ok reply, w')
      → has_prefix r.path "/card-brands" ≡ true
      → r.authorization ≡ "Bearer " +++ token
      → token ≢ ""
      → r.ctx.tx ≡ ctx.tx
      → parse_and_validate m token w' ≡ (ok claims, w')
      → protected m next r w'
        ≡ next
            (with_context r (with_user_claims (new_ctx (some r.ctx) m.required_logger) claims))
            w'
  unfolding protected require_auth
  setup_then_admitted keeps logto ctx body claims reply r token w w' c h path header given tx
        valid =
      let s = patch_setup-IsSetUp m.user_repo logto ctx body w w' reply h in
      let same : s.claims ≡ claims = ground (arith, s.signed_in, c) in
      let inner = new_ctx (some r.ctx) m.required_logger in
      let there : m.user_repo.exists_by_logto_user_id inner claims.sub w' ≡ (ok true, w') =
        rw (← same) (
          keeps.create_exists ctx inner s.claims.sub s.updated w' s.user (new_ctx-tx r.ctx ∙ tx)
            s.creates) in
      let (public, optional) = card_brands_need_token r.path path in
      let found = extract_bearer_token-append r token header in
      ground (arith, there, found, public, optional, eq_iff token "")
