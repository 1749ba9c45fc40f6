-- ===== src/Postgres/Driver.antt =====
-- What the repositories use of pgx, pgxpool, pgconn and pgerrcode, and of the PostgreSQL server
-- behind them: a parameter of the model.
use finsplitter.Base.{ℕ, String, ◌≡◌, ◌≢◌, Bool, true, Option, some, List}
use finsplitter.Effects.{Action}
use finsplitter.Errs.{Error}
use finsplitter.Domain.{Uuid, Time}

-- pgtype.Timestamptz
pub record Timestamptz : Type 0 where
  pub time : Time
  pub valid : Bool

-- The columns that a row of "card_brand" or of "user" is scanned into.
pub record CardBrandRow : Type 0 where
  pub id : Uuid
  pub name : String
  pub created_date : Timestamptz
  pub last_modified_date : Timestamptz

pub record UserRow : Type 0 where
  pub id : Uuid
  pub logto_user_id : Option String
  pub created_date : Timestamptz
  pub last_modified_date : Timestamptz

-- A parameter of a statement; `text` may be NULL.
pub data Arg : Type 0 where
  text : Option String → Arg
  uuid : Uuid → Arg
  bigint : ℕ → Arg

-- A statement runs on a transaction (`some tx`) or on a connection of the pool (`none`). Each query
-- is QueryRow or Query followed by Scan into the columns of the named type.
pub record Database (W : Type 0) : Type 0 where
  pub begin : Action W Error ℕ
  pub commit : ℕ → Action W Error (Unit {0})
  pub rollback : ℕ → Action W Error (Unit {0})
  pub query_card_brand : Option ℕ → String → List Arg → Action W Error CardBrandRow
  pub query_card_brands : Option ℕ → String → List Arg → Action W Error (List CardBrandRow)
  pub query_user : Option ℕ → String → List Arg → Action W Error UserRow
  pub query_bool : Option ℕ → String → List Arg → Action W Error Bool
  pub is_integrity_constraint_violation : String → Bool
  pub unique_violation : String
  pub foreign_key_violation : String

-- Isolation of transactions: `committed` is the part of the world that other connections see.
-- Opening a transaction, running statements on it and rolling it back do not change that part,
-- whatever these calls return.
pub record IsTransactional {W T : Type 0} (db : Database W) (committed : W → T) : Type 0 where
  pub begin_keeps : (w : W) → committed (db.begin w).1 ≡ committed w
  pub rollback_keeps : (tx : ℕ) (w : W) → committed (db.rollback tx w).1 ≡ committed w
  pub card_brand_keeps :
      (tx : ℕ) (sql : String) (args : List Arg) (w : W)
      → committed (db.query_card_brand (some tx) sql args w).1 ≡ committed w

-- The two SQLSTATE codes that the code names are integrity constraint violations, and differ.
pub record HasPgCodes {W : Type 0} (db : Database W) : Type 0 where
  pub unique_is_integrity : db.is_integrity_constraint_violation db.unique_violation ≡ true
  pub foreign_key_is_integrity :
      db.is_integrity_constraint_violation db.foreign_key_violation ≡ true
  pub codes_differ : db.unique_violation ≢ db.foreign_key_violation
