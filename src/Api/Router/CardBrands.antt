-- ===== src/Api/Router/CardBrands.antt =====
-- A card brand request from the router to the table.
use finsplitter.Base.{ℕ, String, ◌==◌, ◌≡◌, ◌⊎◌, refl, inl, inr, some, arith}
use finsplitter.Base.{if◌then◌else◌}
use finsplitter.Effects.{Result, err}
use finsplitter.Domain.{Uuid, uuid_string, UserClaims}
use finsplitter.Domain.Context.{Ctx, has_tx, with_request_id}
use finsplitter.Http.{HttpError, http_error}
use finsplitter.Postgres.Driver.{HasPgCodes}
use finsplitter.Postgres.Table.{Schema, Rows, TxState, RunsTable}
use finsplitter.CardBrands.Routes.{CardBrandRequest}
use finsplitter.CardBrands.Spec.{Reply, Step, lists}
use finsplitter.CardBrands.Refinement.{IsFresh}
use finsplitter.Auth.Paths.{Request, extract_bearer_token}
use finsplitter.Auth.Middleware.{Middleware}
use finsplitter.Auth.Middleware.Frame.{Keeps, IsOutside}
use finsplitter.Auth.Middleware.Verified.{IsVerified}
use finsplitter.Api.{ApiBody, card_brands, operation, Services, routes}
use finsplitter.Api.Stack.{api_reply, IsHandled, refused, panicked, answered, routes-IsHandled}
use finsplitter.Api.Router.{ChiMiddlewares, recovered, IsChi, new_router}
use finsplitter.Api.Router.Answers.{with_id, not_matched, matched, new_router-IsAnswered}

-- the answers that leave the table alone
abbrev pub IsRefusal : HttpError → Type 0
IsRefusal e = (e.status ≡ 401) ⊎ (e.status ≡ 403) ⊎ (e.status ≡ 404) ⊎ (e.status ≡ 500)

module _ (s : Schema) where
  Step-recovered :
      {rows next : Rows} {request : CardBrandRequest} {reply : Reply}
      → Step s rows request reply next
      → recovered (api_reply reply) ≡ api_reply reply
  Step-recovered (lists input) = refl
  Step-recovered _ = refl

module _ {W K T : Type 0} (m : Middleware W K T) (s : Services W) (schema : Schema)
    (committed : W → Rows) where
  -- How the server can treat a card brand request, and what becomes of the table.
  pub data IsDone (request : CardBrandRequest) (r : Request) (w : W)
      (run : Result HttpError ApiBody × W) : Type 0 where
    turned_away :
        (e : HttpError)
        → run.0 ≡ err e
        → IsRefusal e
        → committed run.1 ≡ committed w
        → IsDone request r w run
    done :
        (claims : UserClaims) (u v : W) (reply : Reply) (table : Rows)
        → IsVerified m (extract_bearer_token r) claims u v
        → run.0 ≡ api_reply reply
        → committed run.1 ≡ table
        → Step schema (committed w) request reply table
        → IsDone request r w run

  handled-IsDone :
      (request : CardBrandRequest) (r : Request) (id : String) (w v : W)
      (run : Result HttpError ApiBody × W)
      → committed v ≡ committed w
      → run.0 ≡ recovered (routes s (some m) (card_brands request) (with_id r id) v).0
      → committed run.1 ≡ committed (routes s (some m) (card_brands request) (with_id r id) v).1
      → IsHandled m s schema committed request (with_id r id) v
      → IsDone request r w run
  unfolding extract_bearer_token with_request_id
  handled-IsDone request r id w v run before result after (refused e x q (inl status) kept) =
      turned_away e (ground (arith, q)) (inl status) (ground (arith, q))
  handled-IsDone request r id w v run before result after (refused e x q (inr (inl status)) kept) =
      turned_away e (ground (arith, q)) (inr (inl status)) (ground (arith, q))
  handled-IsDone request r id w v run before result after (refused e x q (inr (inr same)) kept) =
      turned_away e (ground (arith, q)) (inr (inr (inr (ground (arith, same))))) (ground (arith, q))
  handled-IsDone request r id w v run before result after (panicked p x q kept) =
      turned_away (http_error 500 "") (ground (arith, q)) (inr (inr (inr refl))) (ground (arith, q))
  handled-IsDone request r id w v run before result after
        (answered claims u x y reply table verified known q leaves steps) =
      let same = Step-recovered schema steps in
      done claims v u reply table verified (ground (arith, q, same)) (ground (arith, q))
        (rw (← before) steps)

  with_id-IsFresh : (r : Request) (id : String) → IsFresh r.ctx → IsFresh (with_id r id).ctx
  unfolding with_request_id has_tx
  with_id-IsFresh r id fresh = record { no_outer = fresh.no_outer; no_tx = fresh.no_tx }

  module _ (codes : HasPgCodes s.db) (state : ℕ → W → TxState)
      (runs : RunsTable s.db schema committed state) (out : IsOutside m committed)
      (looks : (ctx : Ctx) (sub : String)
        → Keeps committed (m.user_repo.exists_by_logto_user_id ctx sub))
      (chi : ChiMiddlewares W ApiBody) (docs : IsChi committed chi) (new : W → Uuid × W)
      (draws : (w : W) → committed (new w).1 ≡ committed w) where
    -- From the router of the server to the table: on a PostgreSQL server that is up, and where the
    -- middlewares of chi and OpenTelemetry work as documented and neither they nor the token checks
    -- nor the user lookup touch the card brands, a card brand request that comes in no transaction
    -- is answered, without a panic. Either the answer is a 401, 403, 404 or 500 and the table stays
    -- as it is, or the request came with a token that was verified, and the answer and the table
    -- afterwards are those of the specification.
    pub new_router-IsDone :
        (request : CardBrandRequest) (header : String) (r : Request) (w : W)
        → r.path ≡ (operation (card_brands request)).path
        → IsFresh r.ctx
        → IsDone request r w
            (new_router chi new header (routes s (some m) (card_brands request)) r w)
    new_router-IsDone request header r w path fresh =
        let id = if header == "" then uuid_string (new w).0 else header in
        elim (new_router-IsAnswered committed chi docs new draws header
          (routes s (some m) (card_brands request)) r w).0 [
            | not_matched absent ↦
                turned_away absent.error absent.result (inr (inr (inl absent.status))) absent.leaves
            | matched v before result after ↦
                handled-IsDone request r id w v _ before result after (
                  routes-IsHandled m s schema committed codes state runs out looks request
                    (with_id r id) v path (with_id-IsFresh r id fresh))
          ]
