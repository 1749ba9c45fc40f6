-- ===== src/Domain/Context/Laws.antt =====
-- The keys of the context do not disturb one another.
use finsplitter.Base.{ℕ, String, ◌≡◌, refl, true, some}
use finsplitter.Domain.{UserClaims}
use finsplitter.Domain.Context.{
  Ctx, has_tx, with_tx, with_tx_value, get_user_claims, with_user_claims, new_ctx, from_ctx,
  with_request_id, get_request_id,
}

-- Whatever is stored later under the other keys, a context made by `with_tx` has a transaction, and
-- the claims, the logger and the request ID that were stored last are the ones that are read back.
pub context_values :
    (ctx : Ctx) (tx logger default_logger : ℕ) (claims : UserClaims) (request_id : String)
    → let c =
        with_request_id
          (with_user_claims (new_ctx (some (with_tx_value (with_tx ctx) tx)) logger) claims)
          request_id in
      (has_tx c ≡ true)
      × (c.tx ≡ some tx)
      × (get_user_claims c ≡ some claims)
      × (from_ctx default_logger (some c) ≡ logger)
      × (get_request_id (some c) ≡ request_id)
unfolding has_tx with_tx with_tx_value get_user_claims with_user_claims new_ctx from_ctx
    with_request_id get_request_id
context_values ctx tx logger default_logger claims request_id = (refl, refl, refl, refl, refl)
