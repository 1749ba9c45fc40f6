-- ===== src/Api/Documented.antt =====
-- The error statuses that the routes declare, and those that the handlers answer with.
use finsplitter.Base.{
  ℕ, ◌≡◌, ◌||◌, Bool, true, false, any, eqb, arith, some, Option-cases, inl, inr,
}
use finsplitter.Effects.{err, Action, catch, pure, fail, ◌>>=◌}
use finsplitter.Effects.Laws.{catch-eq-err}
use finsplitter.Errs.{Error, message}
use finsplitter.Domain.Context.{Ctx, get_user_claims}
use finsplitter.Http.{HttpError, http_error}
use finsplitter.Postgres.Tx.{tx_manager}
use finsplitter.Postgres.CardBrand.{create_repo, get_repo, list_repo, update_repo, delete_repo}
use finsplitter.Accounts.UseCases as Accounts
use finsplitter.Accounts.Handlers as AccountReplies
use finsplitter.Accounts.Handlers.{
  SetupBody, register_reply, setup_reply, post_register, get_me, patch_setup,
}
use finsplitter.Device.UseCases as Devices
use finsplitter.Device.Handlers.{
  device_auth_reply, device_poll_reply, device_refresh_reply, device_revoke_reply,
}
use finsplitter.Device.Handlers as Replies
use finsplitter.CardBrands.Handlers.{
  filter_of, list_body, create_reply, find_reply, update_reply, post_card_brand, get_card_brand,
  get_card_brands, patch_card_brand, delete_card_brand,
}
use finsplitter.CardBrands.UseCases as Brands
use finsplitter.CardBrands.Routes.{
  CardBrandRequest, list, create, get, update, delete, card_brand_operation, serve, brands, brand,
  gone,
}
use finsplitter.Auth.Paths.{Request}
use finsplitter.Api.{
  AuthRequest, ApiRequest, register, me, device_auth, device_poll, device_refresh, device_revoke,
  auth, card_brands, profile_setup, liveness, readiness, auth_operation, operation, Services,
  auth_handler, profile_handler, handler, message_body, me_body, device_code_body,
  device_token_body, no_body, card_brand_body,
}

-- The two answers that no route declares: a 500 of GET /auth/me, and a 409 of PATCH
-- /card-brands/{id}
abbrev pub is_undeclared : ApiRequest → ℕ → Bool
is_undeclared (auth me) status = eqb status 500
is_undeclared (card_brands (update _)) status = eqb status 409
is_undeclared _ status = false

abbrev pub is_declared : ApiRequest → ℕ → Bool
is_declared request status =
    any (eqb status) (operation request).errors || is_undeclared request status

module _ {W : Type 0} (s : Services W) (ctx : Ctx) (w v : W) (e : HttpError) where
  me_declared : get_me s.users ctx w ≡ (err e, v) → e.status ≡ 500
  unfolding get_me get_user_claims
  me_declared h = elim (Option-cases ctx.claims) [
    | inl nobody ↦ absurd (ground arith)
    | inr (claims, q) ↦
        let (c, _, same) =
          catch-eq-err (Accounts.me s.users (record ctx { claims = some claims }) claims.sub)
            (λ _. http_error 500 "failed to get user info") (AccountReplies.me_body claims) w
            (rw q at h) in
        ground arith
  ]

  setup_declared :
      (body : SetupBody)
      → patch_setup s.users s.logto_updater ctx body w ≡ (err e, v)
      → is_declared (profile_setup body) e.status ≡ true
  unfolding operation patch_setup setup_reply get_user_claims
  setup_declared body h = elim (Option-cases ctx.claims) [
    | inl nobody ↦ ground arith
    | inr (claims, q) ↦
        let (c, _, same) =
          catch-eq-err
            (Accounts.setup s.users s.logto_updater (record ctx { claims = some claims })
              (record {
                logto_user_id = claims.sub;
                username = body.username;
                name = body.name;
                phone = body.phone;
                picture = body.picture;
              }))
            setup_reply _ w (rw q at h) in
        ground arith
  ]

  -- a handler that maps the errors of its use case
  replied :
      {A B C : Type 0} (m : Action W Error A) (reply : Error → HttpError) (g : A → B) (k : B → C)
      → (catch m (λ a. pure (g a)) (λ c. fail (reply c)) >>= λ b. pure (k b)) w ≡ (err e, v)
      → (c : Error) × (e ≡ reply c)
  replied m reply g k h =
      let (z, failed, same) =
        catch-eq-err (catch m (λ a. pure (g a)) (λ c. fail (reply c))) (λ y. y) k w h in
      let (c, _, same') = catch-eq-err m reply g w failed in (c, ground arith)

  auth_declared :
      (request : AuthRequest)
      → auth_handler s request ctx w ≡ (err e, v)
      → is_declared (auth request) e.status ≡ true
  unfolding operation auth_operation auth_handler post_register register_reply device_auth_reply
      device_poll_reply device_refresh_reply device_revoke_reply Replies.device_auth
      Replies.device_poll Replies.device_refresh Replies.device_revoke
  auth_declared (register input) h =
      let (c, same) =
        replied (Accounts.register s.unicode s.users s.logto_creator ctx input) register_reply _
          message_body h in
      ground arith
  auth_declared me h =
      let (c, failed, same) = catch-eq-err (get_me s.users ctx) (λ z. z) me_body w h in
      ground (arith, me_declared (rw same failed))
  auth_declared (device_auth email) h =
      let (c, same) =
        replied (Devices.request_device_auth s.logto_devices email) device_auth_reply (λ a. a)
          device_code_body h in
      ground arith
  auth_declared (device_poll code) h =
      let (c, same) =
        replied (Devices.poll_device_token s.logto_devices code) device_poll_reply (λ a. a)
          device_token_body h in
      ground arith
  auth_declared (device_refresh token) h =
      let (c, same) =
        replied (Devices.refresh_device_token s.logto_devices token) device_refresh_reply (λ a. a)
          device_token_body h in
      ground arith
  auth_declared (device_revoke token) h =
      let (c, same) =
        replied (Devices.revoke_device_token s.logto_devices token) device_revoke_reply (λ a. a)
          (λ _. no_body) h in
      ground arith

  card_brand_declared :
      (request : CardBrandRequest)
      → serve s.db ctx request w ≡ (err e, v)
      → is_declared (card_brands request) e.status ≡ true
  unfolding operation card_brand_operation serve post_card_brand get_card_brand get_card_brands
      patch_card_brand delete_card_brand create_reply find_reply update_reply
  card_brand_declared (list input) h =
      let (c, same) =
        replied (Brands.list_card_brands_uc (list_repo s.db) ctx (filter_of input))
          (λ z. http_error 500 (message z)) list_body brands h in
      ground arith
  card_brand_declared (create name) h =
      let (c, same) =
        replied (Brands.create_card_brand_uc (tx_manager s.db) (create_repo s.db) ctx name)
          create_reply (λ b. b) brand h in
      ground arith
  card_brand_declared (get id) h =
      let (c, same) =
        replied (Brands.get_card_brand_by_id_uc (get_repo s.db) ctx id) find_reply (λ b. b) brand
          h in
      ground arith
  card_brand_declared (update input) h =
      let (c, same) =
        replied
          (Brands.update_card_brand_uc (tx_manager s.db) (update_repo s.db) ctx
            (record { id = input.id; name = input.name }))
          update_reply (λ b. b) brand h in
      ground arith
  card_brand_declared (delete id) h =
      let (c, same) =
        replied (Brands.delete_card_brand_uc (tx_manager s.db) (delete_repo s.db) ctx id) find_reply
          (λ _. true) gone h in
      ground arith

-- Every error that a handler answers with has a status that its route declares, but for two: GET
-- /auth/me answers with a 500, and PATCH /card-brands/{id} with a 409, that are not declared.
pub handler_errors_declared :
    {W : Type 0} (s : Services W) (request : ApiRequest) (r : Request) (w v : W) (e : HttpError)
    → handler s request r w ≡ (err e, v)
    → is_declared request e.status ≡ true
unfolding handler profile_handler
handler_errors_declared s (card_brands request) r w v e h =
    let (c, failed, same) = catch-eq-err (serve s.db r.ctx request) (λ z. z) card_brand_body w h in
    card_brand_declared s r.ctx w v e request (rw same failed)
handler_errors_declared s (auth request) r w v e h = auth_declared s r.ctx w v e request h
handler_errors_declared s (profile_setup body) r w v e h =
    let (c, failed, same) =
      catch-eq-err (patch_setup s.users s.logto_updater r.ctx body) (λ z. z) message_body w h in
    setup_declared s r.ctx w v e body (rw same failed)
handler_errors_declared s liveness r w v e h = absurd (ground arith)
handler_errors_declared s readiness r w v e h = absurd (ground arith)
