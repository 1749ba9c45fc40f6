-- ===== src/Domain.antt =====
-- internal/domain: the entities, the request context with the values that the code stores in it,
-- and pagination. (pkg/logctx and the claims helpers of the auth middleware use the same context.)
pub mod Context
pub mod Pagination
use finsplitter.Base.{ℕ, String, ◌+++◌, ◌/◌, ◌^◌, hex}

-- A UUID is its 128 bits, as a number.
abbrev pub Uuid : Type 0
Uuid = ℕ

-- uuid.Nil()
abbrev pub nil_uuid : Uuid
nil_uuid = 0

-- the method String of uuid.UUID: lower-case hexadecimal digits in groups of 8, 4, 4, 4 and 12
pub uuid_string : Uuid → String
uuid_string u =
    hex 8 (u / 2 ^ 96)
    +++ "-"
    +++ hex 4 (u / 2 ^ 80)
    +++ "-"
    +++ hex 4 (u / 2 ^ 64)
    +++ "-"
    +++ hex 4 (u / 2 ^ 48)
    +++ "-"
    +++ hex 12 u

-- An instant is a number of nanoseconds; 0 is the zero time.Time.
abbrev pub Time : Type 0
Time = ℕ

pub record CardBrand : Type 0 where
  pub id : Uuid
  pub name : String
  pub created_date : Time
  pub last_modified_date : Time

pub record User : Type 0 where
  pub id : Uuid
  pub logto_user_id : String
  pub created_date : Time
  pub last_modified_date : Time

pub record UserClaims : Type 0 where
  pub sub : String
  pub username : String
  pub email : String
  pub name : String
  pub phone : String
  pub picture : String
