-- ===== src/Domain/Context.antt =====
-- context.Context: one field for each key under which the code stores a value. A field is `none`
-- where no value was stored under its key.
pub mod Laws
use finsplitter.Base.{ℕ, String, Bool, true, false, Option, none, some, get_or}
use finsplitter.Domain.{UserClaims}

-- A transaction and a logger are pointers, which are numbers here.
pub record Ctx : Type 0 where
  pub tx_exists : Option Bool
  pub tx : Option ℕ
  pub claims : Option UserClaims
  pub request_id : Option String
  pub logger : Option ℕ

abbrev pub background : Ctx
background = record { tx_exists = none; tx = none; claims = none; request_id = none; logger = none }

unfoldable pub has_tx : Ctx → Bool
has_tx ctx = get_or ctx.tx_exists false

unfoldable pub with_tx : Ctx → Ctx
with_tx ctx = record ctx { tx_exists = some true }

-- context.WithValue(ctx, txKey{}, tx)
unfoldable pub with_tx_value : Ctx → ℕ → Ctx
with_tx_value ctx tx = record ctx { tx = some tx }

unfoldable pub get_user_claims : Ctx → Option UserClaims
get_user_claims ctx = ctx.claims

unfoldable pub with_user_claims : Ctx → UserClaims → Ctx
with_user_claims ctx claims = record ctx { claims = some claims }

-- a nil parent stands for the background context
unfoldable pub new_ctx : Option Ctx → ℕ → Ctx
new_ctx parent logger = record (get_or parent background) { logger = some logger }

-- `default_logger` is slog.Default()
unfoldable pub from_ctx : (default_logger : ℕ) → Option Ctx → ℕ
from_ctx default_logger none = default_logger
from_ctx default_logger (some ctx) = get_or ctx.logger default_logger

unfoldable pub with_request_id : Ctx → String → Ctx
with_request_id parent request_id = record parent { request_id = some request_id }

unfoldable pub get_request_id : Option Ctx → String
get_request_id none = ""
get_request_id (some ctx) = get_or ctx.request_id ""
