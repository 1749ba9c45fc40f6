-- ===== src/Api/Stack.antt =====
-- A card brand request on its way through the whole API: the middleware, the handler, the use case,
-- the repository and the transaction.
use finsplitter.Base.{ℕ, String, Bool, ◌≡◌, refl, sym, ◌∙◌, ◌⊎◌, inl, inr, true, some, arith}
use finsplitter.Effects.{Result, ok, err, panic}
use finsplitter.Errs.{Error}
use finsplitter.Domain.{UserClaims}
use finsplitter.Domain.Context.{Ctx, has_tx, new_ctx, with_user_claims}
use finsplitter.Http.{HttpError, http_error}
use finsplitter.Postgres.Driver.{HasPgCodes}
use finsplitter.Traces.{≡-IsPassage}
use finsplitter.Postgres.Table.{Schema, Rows, TxState, RunsTable}
use finsplitter.CardBrands.Routes.{CardBrandRequest}
use finsplitter.CardBrands.Spec.{Reply, Step}
use finsplitter.CardBrands.Refinement.{IsFresh}
use finsplitter.CardBrands.Refinement.Requests.{serve_refines}
use finsplitter.Auth.Paths.{Request, extract_bearer_token}
use finsplitter.Auth.Paths.Laws.{card_brands_need_token}
use finsplitter.Auth.Middleware.{Middleware, with_context}
use finsplitter.Auth.Middleware.Frame.{Keeps, IsOutside, parse_and_validate-Keeps}
use finsplitter.Auth.Middleware.Verified.{IsVerified, IsVerified-accepted}
use finsplitter.Auth.Middleware.Laws.{
  IsGuarded, no_token, invalid, unknown, broken, validation_panics, lookup_panics, admitted,
  protected-IsGuarded,
}
use finsplitter.Api.{ApiBody, card_brands, card_brand_body, operation, Services, handler, routes}
use finsplitter.Api.Security.{card_brand_paths}

abbrev pub api_reply : Reply → Result HttpError ApiBody
api_reply (ok b) = ok (card_brand_body b)
api_reply (err e) = err e
api_reply (panic p) = panic p

-- the context that the middleware makes of a request's is in no transaction either
admitted-IsFresh :
    (ctx : Ctx) (logger : ℕ) (claims : UserClaims)
    → IsFresh ctx
    → IsFresh (with_user_claims (new_ctx (some ctx) logger) claims)
unfolding new_ctx with_user_claims has_tx
admitted-IsFresh ctx logger claims fresh = record { no_outer = fresh.no_outer; no_tx = fresh.no_tx }

module _ {W K T : Type 0} (m : Middleware W K T) (s : Services W) (schema : Schema)
    (committed : W → Rows) where
  -- How the whole API can treat a card brand request, and what becomes of the table.
  pub data IsHandled (request : CardBrandRequest) (r : Request) (w : W) : Type 0 where
    refused :
        (e : HttpError) (v : W)
        → routes s (some m) (card_brands request) r w ≡ (err e, v)
        → (e.status ≡ 401) ⊎ (e.status ≡ 403) ⊎ (e ≡ http_error 500 "internal error")
        → committed v ≡ committed w
        → IsHandled request r w
    panicked :
        (p : String) (v : W)
        → routes s (some m) (card_brands request) r w ≡ (panic p, v)
        → committed v ≡ committed w
        → IsHandled request r w
    answered :
        (claims : UserClaims) (u x v : W) (reply : Reply) (table : Rows)
        → IsVerified m (extract_bearer_token r) claims w u
        → m.user_repo.exists_by_logto_user_id (new_ctx (some r.ctx) m.required_logger) claims.sub u
          ≡ (ok true, x)
        → routes s (some m) (card_brands request) r w ≡ (api_reply reply, v)
        → committed v ≡ table
        → Step schema (committed w) request reply table
        → IsHandled request r w

  module _ (codes : HasPgCodes s.db) (state : ℕ → W → TxState)
      (runs : RunsTable s.db schema committed state) (out : IsOutside m committed)
      (looks : (ctx : Ctx) (sub : String)
        → Keeps committed (m.user_repo.exists_by_logto_user_id ctx sub)) where
    looked_up_keeps :
        (r : Request) (claims : UserClaims) (w u v : W) {there : Result Error Bool}
        → IsVerified m (extract_bearer_token r) claims w u
        → m.user_repo.exists_by_logto_user_id (new_ctx (some r.ctx) m.required_logger) claims.sub u
          ≡ (there, v)
        → committed v ≡ committed w
    looked_up_keeps r claims w u v verified q =
        let (found, e, _) = IsVerified-accepted m (extract_bearer_token r) claims w u verified in
        ground (
          arith,
          parse_and_validate-Keeps m committed out (extract_bearer_token r) w,
          looks (new_ctx (some r.ctx) m.required_logger) claims.sub u,
        )

    -- the request has been let in
    admitted_answered :
        (request : CardBrandRequest) (r : Request) (claims : UserClaims) (w u v : W)
        → IsFresh r.ctx
        → IsVerified m (extract_bearer_token r) claims w u
        → m.user_repo.exists_by_logto_user_id (new_ctx (some r.ctx) m.required_logger) claims.sub u
          ≡ (ok true, v)
        → routes s (some m) (card_brands request) r w
          ≡ handler s
              (card_brands request)
              (with_context r (with_user_claims (new_ctx (some r.ctx) m.required_logger) claims))
              v
        → IsHandled request r w
    unfolding handler
    admitted_answered request r claims w u v fresh verified known goes_on =
        let fresh' = admitted-IsFresh r.ctx m.required_logger claims fresh in
        let served =
          serve_refines s.db codes schema ≡-IsPassage committed state runs.0 _ fresh' v request in
        let same = looked_up_keeps r claims w u v verified known in
        answered claims u v served.after served.reply served.table verified known
          (goes_on ∙ ground (arith, served.serves)) (sym served.leaves)
          (rw (← same, served.comes) served.steps)

    -- With a PostgreSQL server that is up, and where the token checks and the user lookup do not
    -- touch the card brands: a card brand request that comes in no transaction of its own is
    -- refused with a 401, a 403 or a 500, or panics, and the table stays as it is; or it comes with
    -- a token that was verified for the subject of a user who exists, and the response and the
    -- table afterwards are those of the specification.
    pub routes-IsHandled :
        (request : CardBrandRequest) (r : Request) (w : W)
        → r.path ≡ (operation (card_brands request)).path
        → IsFresh r.ctx
        → IsHandled request r w
    unfolding routes operation
    routes-IsHandled request r w path fresh =
        let (public, optional) =
          card_brands_need_token r.path (rw path (card_brand_paths request)) in
        handled (protected-IsGuarded m (handler s (card_brands request)) r w public optional)
      where
        handled : IsGuarded m (handler s (card_brands request)) r w → IsHandled request r w
        handled (no_token _ q) = refused _ w q (inl refl) refl
        handled (invalid c v e q) =
            refused _ v q (inl refl)
              (ground (arith, parse_and_validate-Keeps m committed out (extract_bearer_token r) w))
        handled (unknown claims u v verified e q) =
            refused _ v q (inr (inl refl)) (looked_up_keeps r claims w u v verified e)
        handled (broken claims c u v verified e q) =
            refused _ v q (inr (inr refl)) (looked_up_keeps r claims w u v verified e)
        handled (validation_panics p v e q) =
            panicked p v q
              (ground (arith, parse_and_validate-Keeps m committed out (extract_bearer_token r) w))
        handled (lookup_panics claims p u v verified e q) =
            panicked p v q (looked_up_keeps r claims w u v verified e)
        handled (admitted claims u v verified known q) =
            admitted_answered request r claims w u v fresh verified known q
