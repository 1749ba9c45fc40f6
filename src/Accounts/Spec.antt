-- ===== src/Accounts/Spec.antt =====
-- What the account API promises: the response to each request, and what becomes of the table of
-- users. Nothing here mentions statements or error values.
pub mod Invariant
pub use finsplitter.Traces.{stop, step}
use finsplitter.Traces as Sequences
use finsplitter.Base.{String, ◌≡◌, ◌≢◌, true, false, Option, none, some, List, [], ◌∷◌}
use finsplitter.Effects.{Result, ok, err}
use finsplitter.Domain.{UserClaims, uuid_string}
use finsplitter.Http.{HttpError, http_error}
use finsplitter.Postgres.Driver.{UserRow}
use finsplitter.Postgres.UserTable.{find_logto}
use finsplitter.Accounts.UseCases.{RegisterInput}
use finsplitter.Accounts.Handlers.{
  MessageBody, MeBody, SetupBody, me_body, empty_me, registered_body, set_up_body,
}

-- POST /auth/register, GET /auth/me and PATCH /profile/setup
pub data AccountRequest : Type 0 where
  register : RegisterInput → AccountRequest
  who_am_i : AccountRequest
  set_up : SetupBody → AccountRequest

pub data AccountBody : Type 0 where
  message : MessageBody → AccountBody
  about : MeBody → AccountBody

abbrev pub Reply : Type 0
Reply = Result HttpError AccountBody

-- A request, with the claims of the token that it carries, if there is one
abbrev pub Call : Type 0
Call = Option UserClaims × AccountRequest

abbrev pub Users : Type 0
Users = List UserRow

-- The answers to a registration that the identity provider has refused
pub data IsRefusal : HttpError → Type 0 where
  name_taken : IsRefusal (http_error 409 "username already taken")
  email_taken : IsRefusal (http_error 409 "user already registered")
  failed : IsRefusal (http_error 500 "registration failed")

-- One request on the table `rows`: the call, the response and the table afterwards. Whether the
-- identity provider accepts a new user or a profile is left open, and so are the IDs of its users.
pub data Step (rows : Users) : Call → Reply → Users → Type 0 where
  registers :
      (c : Option UserClaims) (input : RegisterInput) (id : String) (row : UserRow)
      → row.logto_user_id ≡ some id
      → find_logto id rows ≡ none
      → Step rows
          (c, register input)
          (ok (message (registered_body (uuid_string row.id))))
          (row ∷ rows)
  registers_linked :
      (c : Option UserClaims) (input : RegisterInput) (id : String) (row : UserRow)
      → find_logto id rows ≡ some row
      → Step rows (c, register input) (err (http_error 409 "user already registered")) rows
  registers_refused :
      (c : Option UserClaims) (input : RegisterInput) (e : HttpError)
      → IsRefusal e
      → Step rows (c, register input) (err e) rows
  tells_nobody : Step rows (none, who_am_i) (ok (about empty_me)) rows
  tells :
      (claims : UserClaims) (row : UserRow)
      → find_logto claims.sub rows ≡ some row
      → Step rows
          (some claims, who_am_i)
          (ok (about (me_body claims (record { id = uuid_string row.id; needs_setup = false }))))
          rows
  tells_unknown :
      (claims : UserClaims)
      → find_logto claims.sub rows ≡ none
      → Step rows
          (some claims, who_am_i)
          (ok (about (me_body claims (record { id = ""; needs_setup = true }))))
          rows
  sets_up_nobody :
      (body : SetupBody)
      → Step rows (none, set_up body) (err (http_error 401 "unauthenticated")) rows
  sets_up_nameless :
      (claims : UserClaims) (body : SetupBody)
      → claims.sub ≡ ""
      → Step rows (some claims, set_up body) (err (http_error 422 "invalid input")) rows
  sets_up :
      (claims : UserClaims) (body : SetupBody) (row : UserRow)
      → claims.sub ≢ ""
      → find_logto claims.sub rows ≡ none
      → row.logto_user_id ≡ some claims.sub
      → Step rows
          (some claims, set_up body)
          (ok (message (set_up_body (uuid_string row.id))))
          (row ∷ rows)
  sets_up_known :
      (claims : UserClaims) (body : SetupBody) (row : UserRow)
      → claims.sub ≢ ""
      → find_logto claims.sub rows ≡ some row
      → Step rows (some claims, set_up body) (err (http_error 409 "profile already set up")) rows
  sets_up_refused :
      (claims : UserClaims) (body : SetupBody)
      → claims.sub ≢ ""
      → find_logto claims.sub rows ≡ none
      → Step rows (some claims, set_up body) (err (http_error 500 "setup failed")) rows

-- A sequence of requests with their responses, from one table to another.
abbrev pub Trace : Users → List (Call × Reply) → Users → Type 0
Trace = Sequences.Trace Step
