-- ===== src/Errs.antt =====
-- Error values: the sentinels of internal/domain/errs/errs.go, internal/gateways/logto/errors.go
-- and internal/config/errors.go, and the ways in which the code wraps them.
pub mod Laws
use finsplitter.Base.{
  ℕ, String, ◌+++◌, Bool, false, ◌||◌, Option, none, some, List, decimal, join, eqb, if◌then◌else◌,
}

-- `no_rows` is pgx.ErrNoRows, and `redis_nil` is redis.Nil.
pub data Sentinel : Type 0 where
  database_generic : Sentinel
  card_brand_not_found card_brand_already_exists card_brand_foreign_key_violation : Sentinel
  not_found duplicate invalid_input unauthorized needs_setup invalid_credentials : Sentinel
  user_already_exists username_taken : Sentinel
  m2m_unauthorized user_exists user_not_found logto_invalid_credentials : Sentinel
  app_client_not_configured email_already_in_use : Sentinel
  device_code_pending device_code_expired device_code_access_denied device_token_revoked : Sentinel
  missing_required_env : Sentinel
  no_rows redis_nil : Sentinel

-- A sentinel is compared by its address; its place in the list stands for that.
abbrev pub place : Sentinel → ℕ
place database_generic = 0
place card_brand_not_found = 1
place card_brand_already_exists = 2
place card_brand_foreign_key_violation = 3
place not_found = 4
place duplicate = 5
place invalid_input = 6
place unauthorized = 7
place needs_setup = 8
place invalid_credentials = 9
place user_already_exists = 10
place username_taken = 11
place m2m_unauthorized = 12
place user_exists = 13
place user_not_found = 14
place logto_invalid_credentials = 15
place app_client_not_configured = 16
place email_already_in_use = 17
place device_code_pending = 18
place device_code_expired = 19
place device_code_access_denied = 20
place device_token_revoked = 21
place missing_required_env = 22
place no_rows = 23
place redis_nil = 24

-- the text given to errors.New
abbrev pub sentinel_text : Sentinel → String
sentinel_text database_generic = "database operation failed"
sentinel_text card_brand_not_found = "card brand not found"
sentinel_text card_brand_already_exists = "card brand already exists"
sentinel_text card_brand_foreign_key_violation = "card brand foreign key violation"
sentinel_text not_found = "entity not found"
sentinel_text duplicate = "duplicate entry"
sentinel_text invalid_input = "invalid input"
sentinel_text unauthorized = "unauthorized"
sentinel_text needs_setup = "account needs profile setup"
sentinel_text invalid_credentials = "invalid credentials"
sentinel_text user_already_exists = "user already exists"
sentinel_text username_taken = "username already taken"
sentinel_text m2m_unauthorized = "logto m2m unauthorized"
sentinel_text user_exists = "user already exists in logto"
sentinel_text user_not_found = "user not found in logto"
sentinel_text logto_invalid_credentials = "invalid credentials"
sentinel_text app_client_not_configured = "logto app client not configured"
sentinel_text email_already_in_use = "email already in use in logto"
sentinel_text device_code_pending = "device code authorization pending"
sentinel_text device_code_expired = "device code expired"
sentinel_text device_code_access_denied = "device code access denied"
sentinel_text device_token_revoked = "device token revocation failed"
sentinel_text missing_required_env = "missing required environment variables"
sentinel_text no_rows = "no rows in result set"
sentinel_text redis_nil = "redis: nil"

-- `plain` is errors.New, or fmt.Errorf with no %w; `wrap` is fmt.Errorf with one %w between two
-- texts, and `wrap_two` with two; `pg` is *pgconn.PgError, with its SQLSTATE code; `missing_env` is
-- *missingEnvError.
pub data Error : Type 0 where
  sentinel : Sentinel → Error
  plain : String → Error
  wrap : String → Error → String → Error
  wrap_two : String → Error → String → Error → String → Error
  pg : (code text : String) → Error
  missing_env : List String → Error

-- errors.Is, for a sentinel: the error itself, or one that it wraps
abbrev pub is : Error → Sentinel → Bool
is (sentinel t) s = eqb (place t) (place s)
is (plain _) s = false
is (wrap _ e _) s = is e s
is (wrap_two _ e _ f _) s = is e s || is f s
is (pg _ _) s = false
is (missing_env _) s = eqb (place missing_required_env) (place s)

abbrev or_else : Option String → Option String → Option String
or_else none o = o
or_else (some a) o = some a

-- errors.As, for a *pgconn.PgError: the code of the first one in the tree
abbrev pub as_pg : Error → Option String
as_pg (wrap _ e _) = as_pg e
as_pg (wrap_two _ e _ f _) = or_else (as_pg e) (as_pg f)
as_pg (pg code _) = some code
as_pg _ = none

-- the method Error
unfoldable pub message : Error → String
message (sentinel s) = sentinel_text s
message (plain t) = t
message (wrap before e after) = before +++ (message e +++ after)
message (wrap_two before e between f after) =
    before +++ (message e +++ (between +++ (message f +++ after)))
message (pg code text) = text
message (missing_env names) = "missing required environment variables: " +++ join names ", "

-- fmt.Errorf("…: %w", err)
abbrev pub prefixed : String → Error → Error
prefixed before e = wrap (before +++ ": ") e ""

-- fmt.Errorf("…: status %d", code)
abbrev pub status_error : String → ℕ → Error
status_error before code = plain (before +++ (": status " +++ decimal code))
