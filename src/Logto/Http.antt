-- ===== src/Logto/Http.antt =====
-- What the Logto client uses of resty and of the server behind it, a parameter of the model: one
-- call sends a request, with the client's retries, and returns the status and the fields that were
-- decoded into the structures which the request registered for the body.
use finsplitter.Base.{ℕ, String, List, Option, get_or, lookup, Bool}
use finsplitter.Base.Int.{ℤ, pos}
use finsplitter.Effects.{Action}
use finsplitter.Errs.{Error}

-- `auth_token` is SetAuthToken, or the header "Authorization: Bearer …" set by hand; `form` is SetFormData and `json` SetBody, with the fields of the structure by their JSON names;
-- `result` and `result_error` tell whether SetResult and SetResultError were called.
pub record HttpRequest : Type 0 where
  pub method : String
  pub url : String
  pub auth_token : Option String
  pub form : List (String × String)
  pub json : List (String × String)
  pub result : Bool
  pub result_error : Bool

-- The registered structure after the call: a field that was not decoded has its zero value.
pub record HttpResponse : Type 0 where
  pub status : ℕ
  pub texts : List (String × String)
  pub numbers : List (String × ℤ)

abbrev pub text_field : HttpResponse → String → String
text_field r k = get_or (lookup k r.texts) ""

abbrev pub int_field : HttpResponse → String → ℤ
int_field r k = get_or (lookup k r.numbers) (pos 0)

-- `send` fails where resty returns an error. `now` is time.Now, in nanoseconds.
pub record HttpClient (W : Type 0) : Type 0 where
  pub send : HttpRequest → Action W Error HttpResponse
  pub now : W → ℕ
