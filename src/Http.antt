-- ===== src/Http.antt =====
-- What an HTTP handler returns: a body, or an error with a status code and a message, as the
-- functions huma.Error409Conflict and so on make it.
use finsplitter.Base.{ℕ, String, List}

pub record HttpError : Type 0 where
  pub status : ℕ
  pub message : String

abbrev pub http_error : ℕ → String → HttpError
http_error status message = record { status = status; message = message }

-- What a route declares in the API description, with the path of a request for it. Each member of
-- `security` is one way to be let in, the list of the schemes that it takes.
pub record Operation : Type 0 where
  pub method : String
  pub path : String
  pub security : List (List String)
  pub errors : List ℕ
