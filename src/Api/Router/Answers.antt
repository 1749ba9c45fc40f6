-- ===== src/Api/Router/Answers.antt =====
-- Every request gets an answer.
use finsplitter.Base.{String, ◌==◌, ◌≡◌, ◌≢◌, sym, if◌then◌else◌, ◌∙◌, inl, inr, arith, Bool-cases}
use finsplitter.Effects.{Result, ok, err, panic}
use finsplitter.Domain.{Uuid, uuid_string}
use finsplitter.Domain.Context.{with_request_id}
use finsplitter.Http.{HttpError}
use finsplitter.Auth.Paths.{Request}
use finsplitter.Auth.Middleware.{Handler, with_context}
use finsplitter.Api.{request_id}
use finsplitter.Api.Router.{
  ChiMiddlewares, Passes, IsNotMatched, recovered, IsChi, is_traced, new_router,
}

-- The request with the ID that the middleware RequestID gave it
abbrev pub with_id : Request → String → Request
with_id r id = with_context r (with_request_id r.ctx id)

module _ {W B T : Type 0} (observed : W → T) (chi : ChiMiddlewares W B)
    (docs : IsChi observed chi) where
  both_pass :
      {next inner : Handler W B} (r : Request) (w : W) (run : Result HttpError B × W)
      → Passes observed inner r w run
      → ((v : W) → Passes observed next r v (inner r v))
      → Passes observed next r w run
  both_pass r w run outer each =
      let second = each outer.enter in
      record {
        enter = second.enter;
        enters = second.enters ∙ outer.enters;
        result = outer.result ∙ second.result;
        leaves = outer.leaves ∙ second.leaves;
      }

  -- the middlewares between SupressNotFound and Recoverer
  inner_pass :
      (next : Handler W B) (r : Request) (w : W)
      → Passes observed (chi.recoverer next) r w (
          chi.clean_path
            (chi.otel is_traced (
              chi.request_duration
                (chi.active_requests (chi.response_body_size (chi.recoverer next)))))
            r
            w)
  inner_pass next r w = both_pass r w _ (docs.clean_path _ r w) (λ v.
      both_pass r v _ (docs.otel is_traced _ r v) (λ u.
        both_pass r u _ (docs.request_duration _ r u) (λ x.
          both_pass r x _ (docs.active_requests _ r x)
            (λ y. docs.response_body_size (chi.recoverer next) r y))))

  -- How the router treats a request: by a 404, without a call of `next`, or by the answer of `next`
  -- to the request with its ID, where a panic has become a 500.
  pub data IsAnswered (next : Handler W B) (r : Request) (id : String) (w : W)
      (run : Result HttpError B × W) : Type 0 where
    not_matched : IsNotMatched observed w run → IsAnswered next r id w run
    matched :
        (v : W)
        → observed v ≡ observed w
        → run.0 ≡ recovered (next (with_id r id) v).0
        → observed run.1 ≡ observed (next (with_id r id) v).1
        → IsAnswered next r id w run

  below_id :
      (next : Handler W B) (r : Request) (id : String) (w : W)
      → IsAnswered next r id w (
          chi.supress_not_found
            (chi.clean_path (
              chi.otel is_traced (
                chi.request_duration
                  (chi.active_requests (chi.response_body_size (chi.recoverer next))))))
            (with_id r id)
            w)
  below_id next r id w = elim (docs.supress_not_found _ (with_id r id) w) [
    | inl absent ↦ not_matched absent
    | inr passes ↦
        let all = both_pass (with_id r id) w _ passes (inner_pass next (with_id r id)) in
        let (same, kept) = docs.recoverer next (with_id r id) all.enter in
        matched all.enter all.enters (all.result ∙ same) (all.leaves ∙ kept)
  ]

  IsAnswered-from :
      (next : Handler W B) (r : Request) (id : String) (w v : W) (run : Result HttpError B × W)
      → observed v ≡ observed w
      → IsAnswered next r id v run
      → IsAnswered next r id w run
  IsAnswered-from next r id w v run same (not_matched absent) = not_matched (record {
    error = absent.error;
    status = absent.status;
    result = absent.result;
    leaves = absent.leaves ∙ same;
  })
  IsAnswered-from next r id w v run same (matched u before result after) =
      matched u (before ∙ same) result after

  recovered-total : (x : Result HttpError B) (p : String) → recovered x ≢ panic p
  recovered-total (ok b) p h = ground arith
  recovered-total (err e) p h = ground arith
  recovered-total (panic q) p h = ground arith

  IsAnswered-total :
      (next : Handler W B) (r : Request) (id : String) (w : W) (run : Result HttpError B × W)
      → IsAnswered next r id w run
      → (p : String) → run.0 ≢ panic p
  IsAnswered-total next r id w run (not_matched absent) p h =
      let found = absent.result in absurd (ground arith)
  IsAnswered-total next r id w run (matched v before result after) p h =
      recovered-total (next (with_id r id) v).0 p (sym result ∙ h)

  -- Whatever the routes do, a request is answered without a panic. The answer is a 404 without a
  -- call of the routes; or it is that of the routes, with a 500 in place of a panic, to the request
  -- with its ID in the context: the X-Request-ID that it came with, or else a new UUID. The
  -- middlewares of chi and OpenTelemetry are assumed to work as documented, and neither they nor
  -- drawing a UUID to touch what is `observed`.
  pub new_router-IsAnswered :
      (new : W → Uuid × W)
      → ((w : W) → observed (new w).1 ≡ observed w)
      → (header : String) (next : Handler W B) (r : Request) (w : W)
      → IsAnswered next r
          (if header == "" then uuid_string (new w).0 else header)
          w
          (new_router chi new header next r w)
        × ((p : String) → (new_router chi new header next r w).0 ≢ panic p)
  unfolding new_router request_id
  new_router-IsAnswered new draws header next r w = elim (Bool-cases (header == "")) [
    | inl absent ↦
        let id = uuid_string (new w).0 in
        let answer = below_id next r id (new w).1 in
        rw absent (
          IsAnswered-from next r id w (new w).1 _ (draws w) answer,
          IsAnswered-total next r id (new w).1 _ answer,
        )
    | inr given ↦
        let answer = below_id next r header w in
        rw given (answer, IsAnswered-total next r header w _ answer)
  ]
