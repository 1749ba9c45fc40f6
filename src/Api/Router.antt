-- ===== src/Api/Router.antt =====
-- internal/gateways/http/global_router.go: the middlewares in front of the API. Those of chi, otelchi
-- and otelchi/metric are a parameter.
pub mod Answers
pub mod CardBrands
use finsplitter.Base.{String, ◌==◌, Bool, not, List, [], ◌∷◌, any, ◌≡◌, ◌⊎◌}
use finsplitter.Effects.{Result, ok, err, panic}
use finsplitter.Domain.{Uuid}
use finsplitter.Http.{HttpError, http_error}
use finsplitter.Auth.Paths.{Request}
use finsplitter.Auth.Middleware.{Handler}
use finsplitter.Api.{request_id}

-- the filter of otelchi: the paths that are not traced
abbrev block_list : List String
block_list =
    "/health/liveness" ∷ "/health/readiness" ∷ "/docs" ∷ "/openapi.yaml" ∷ "/openapi.json" ∷ []

unfoldable pub is_traced : Request → Bool
is_traced r = not (any (λ path. r.path == path) block_list)

-- `supress_not_found` is SupressNotFound on the router itself.
pub record ChiMiddlewares (W B : Type 0) : Type 0 where
  pub supress_not_found : Handler W B → Handler W B
  pub clean_path : Handler W B → Handler W B
  pub otel : (Request → Bool) → Handler W B → Handler W B
  pub request_duration : Handler W B → Handler W B
  pub active_requests : Handler W B → Handler W B
  pub response_body_size : Handler W B → Handler W B
  pub recoverer : Handler W B → Handler W B

module _ {W B : Type 0} (chi : ChiMiddlewares W B) (new : W → Uuid × W) where
  -- NewRouter with the routes as `next`: the first middleware is the outermost. `header` is the
  -- X-Request-ID of the request.
  unfoldable pub new_router : (header : String) → Handler W B → Handler W B
  unfolding request_id is_traced
  new_router header next = request_id new header (
      chi.supress_not_found (
        chi.clean_path (
          chi.otel is_traced (
            chi.request_duration
              (chi.active_requests (chi.response_body_size (chi.recoverer next)))))))

-- Recoverer, on the result of the next handler. It lets http.ErrAbortHandler through, which no code
-- here raises.
abbrev pub recovered : {B : Type 0} → Result HttpError B → Result HttpError B
recovered (ok b) = ok b
recovered (err e) = err e
recovered (panic p) = err (http_error 500 "")

-- What the documentation says of these middlewares, `observed` being what they leave alone: they are
-- transparent, but for two. A path that the router does not match is answered by a 404, and a panic
-- by a 500.
module _ {W B T : Type 0} (observed : W → T) where
  -- The next handler is called, and its answer passed on.
  pub record Passes (next : Handler W B) (r : Request) (w : W) (run : Result HttpError B × W)
      : Type 0 where
    pub enter : W
    pub enters : observed enter ≡ observed w
    pub result : run.0 ≡ (next r enter).0
    pub leaves : observed run.1 ≡ observed (next r enter).1

  abbrev pub IsTransparent : (Handler W B → Handler W B) → Type 0
  IsTransparent middleware =
      (next : Handler W B) (r : Request) (w : W) → Passes next r w (middleware next r w)

  pub record IsNotMatched (w : W) (run : Result HttpError B × W) : Type 0 where
    pub error : HttpError
    pub status : error.status ≡ 404
    pub result : run.0 ≡ err error
    pub leaves : observed run.1 ≡ observed w

  pub record IsChi (chi : ChiMiddlewares W B) : Type 0 where
    pub supress_not_found :
        (next : Handler W B) (r : Request) (w : W)
        → IsNotMatched w (chi.supress_not_found next r w)
          ⊎ Passes next r w (chi.supress_not_found next r w)
    pub clean_path : IsTransparent chi.clean_path
    pub otel : (filter : Request → Bool) → IsTransparent (chi.otel filter)
    pub request_duration : IsTransparent chi.request_duration
    pub active_requests : IsTransparent chi.active_requests
    pub response_body_size : IsTransparent chi.response_body_size
    pub recoverer :
        (next : Handler W B) (r : Request) (w : W)
        → ((chi.recoverer next r w).0 ≡ recovered (next r w).0)
          × (observed (chi.recoverer next r w).1 ≡ observed (next r w).1)
