-- ===== src/Tests/Router.antt =====
-- The router, with middlewares that only pass requests on, in front of the whole API.
use finsplitter.Base.{String, ◌==◌, ◌≢◌, refl, some, inl, inr, Bool-cases, if◌then◌else◌}
use finsplitter.Effects.{err, panic}
use finsplitter.Domain.{Uuid}
use finsplitter.Http.{http_error}
use finsplitter.Auth.Paths.{Request}
use finsplitter.CardBrands.Routes.{create, card_brand_operation}
use finsplitter.Auth.Middleware.{Handler}
use finsplitter.Api.{ApiBody, card_brands, operation, routes, request_id}
use finsplitter.Api.Router.{ChiMiddlewares, Passes, recovered, IsChi, new_router}
use finsplitter.Api.Router.Answers.{IsAnswered, new_router-IsAnswered}
use finsplitter.Api.Router.CardBrands.{IsDone, new_router-IsDone}
use finsplitter.Tests.Statements.{schema}
use finsplitter.Tests.Server.{Server, alone, session_of, server_db-HasPgCodes, server_db-RunsTable}
use finsplitter.Tests.Catalogue.{background-IsFresh, empty}
use finsplitter.Tests.Stack.{middleware, services, request, middleware-IsOutside}

abbrev chi : ChiMiddlewares Server ApiBody
chi = record {
  supress_not_found = λ next r w.
      if r.path == "/card-brands" then next r w else (err (http_error 404 "not found"), w);
  clean_path = λ next. next;
  otel = λ filter next. next;
  request_duration = λ next. next;
  active_requests = λ next. next;
  response_body_size = λ next. next;
  recoverer = λ next r w. let (x, v) = next r w in (recovered x, v);
}

hands_over :
    (next : Handler Server ApiBody) (r : Request) (w : Server)
    → Passes (λ v. v.rows) next r w (next r w)
hands_over next r w = record { enter = w; enters = refl; result = refl; leaves = refl }

chi-IsChi : IsChi (λ w. w.rows) chi
chi-IsChi = record {
  supress_not_found = λ next r w. elim (Bool-cases (r.path == "/card-brands")) [
    | inl known ↦ inr (rw known (hands_over next r w))
    | inr unknown ↦ inl (
        rw unknown (record {
          error = http_error 404 "not found";
          status = refl;
          result = refl;
          leaves = refl;
        }))
  ];
  clean_path = hands_over;
  otel = λ filter. hands_over;
  request_duration = hands_over;
  active_requests = hands_over;
  response_body_size = hands_over;
  recoverer = λ next r w. (refl, refl);
}

abbrev new_id : Server → Uuid × Server
new_id w = (7, w)

abbrev visa_request : Request
visa_request = request "/card-brands" "Bearer a.b.c"

new_router-IsDone_example :
    IsDone middleware services schema
      (λ w. w.rows)
      (create "Visa")
      visa_request
      empty
      (new_router chi new_id ""
        (routes services (some middleware) (card_brands (create "Visa")))
        visa_request
        empty)
unfolding operation card_brand_operation
new_router-IsDone_example =
    new_router-IsDone middleware services schema (λ w. w.rows) server_db-HasPgCodes
      (session_of alone) server_db-RunsTable middleware-IsOutside (λ ctx sub w. refl) chi chi-IsChi
      new_id (λ w. refl) (create "Visa") "" visa_request empty refl background-IsFresh

-- a handler that panics
abbrev broken : Handler Server ApiBody
broken r w = (panic "nil pointer", w)

new_router-IsAnswered_example :
    IsAnswered
      (λ w. w.rows)
      chi
      chi-IsChi
      broken
      visa_request
      "abc"
      empty
      (err (http_error 500 ""), empty)
    × ((p : String) → (new_router chi new_id "abc" broken visa_request empty).0 ≢ panic p)
unfolding new_router request_id
new_router-IsAnswered_example =
    new_router-IsAnswered (λ w. w.rows) chi chi-IsChi new_id (λ w. refl) "abc" broken visa_request
      empty
