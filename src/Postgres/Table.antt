-- ===== src/Postgres/Table.antt =====
-- The table "card_brand" as the migrations in internal/gateways/postgres/migrations declare it, and
-- what PostgreSQL documents of the five statements on it, for a server that is up. The server is a
-- parameter: the record RunsShared is a hypothesis on it, while other connections work on the same
-- table, and RunsTable while none does.
use finsplitter.Base.{
  ℕ, String, ◌==◌, ◌≡◌, ◌≢◌, Bool, true, false, Option, none, some, List, [], ◌∷◌, any, eqb, take,
  drop, if◌then◌else◌,
}
use finsplitter.Effects.{Result, ok, err}
use finsplitter.Errs.{Error, sentinel, pg, no_rows}
use finsplitter.Domain.{Uuid}
use finsplitter.Postgres.Driver.{Database, CardBrandRow, text, uuid, bigint}
use finsplitter.Postgres.Sqlc

abbrev pub Rows : Type 0
Rows = List CardBrandRow

abbrev pub find : Uuid → Rows → Option CardBrandRow
find id [] = none
find id (row ∷ rows) = if eqb row.id id then some row else find id rows

abbrev pub without : Uuid → Rows → Rows
without id [] = []
without id (row ∷ rows) = let rest = without id rows in if eqb row.id id then rest else row ∷ rest

-- What the statements need to know of the schema and of the other tables: `lower` is the function
-- of the unique index card_brand_unique_lower_name, `accepts` tells whether a text fits the column
-- (VARCHAR(100)), `in_use` whether a row of "card" refers to a brand, and `select` is the WHERE and
-- the ORDER BY of the list query. `cancels` tells whether the server may cancel a statement that
-- writes, as it does to end a deadlock.
pub record Schema : Type 0 where
  pub lower : String → String
  pub accepts : String → Bool
  pub in_use : Uuid → Bool
  pub cancels : Bool
  pub select : Rows → Option String → Option String → Rows

module _ (s : Schema) where
  -- Some row has the name, up to `lower`.
  abbrev pub has_name : String → Rows → Bool
  has_name name rows = any (λ row. s.lower row.name == s.lower name) rows

-- What a transaction has changed, which other connections see once it is committed.
pub data Change : Type 0 where
  insert : CardBrandRow → Change
  replace : (old row : CardBrandRow) → Change
  remove : CardBrandRow → Change

abbrev pub apply : Change → Rows → Rows
apply (insert row) rows = row ∷ rows
apply (replace old row) rows = row ∷ without row.id rows
apply (remove row) rows = without row.id rows

-- A transaction is open until it is closed; after an error it can only be rolled back.
pub data TxState : Type 0 where
  closed aborted clean : TxState
  changed : Change → TxState

-- The rows meet the constraints of the table after the change.
abbrev pub Fits : Schema → Change → Rows → Type 0
Fits s (insert row) rows = (find row.id rows ≡ none) × (has_name s row.name rows ≡ false)
Fits s (replace old row) rows =
    (find row.id rows ≡ some old) × (has_name s row.name (without row.id rows) ≡ false)
Fits s (remove row) rows = (find row.id rows ≡ some row) × (s.in_use row.id ≡ false)

module _ {W : Type 0} (db : Database W) (s : Schema) where
  -- The answers to each statement on the rows at its time, with the state of its transaction
  -- afterwards. A text that the column does not accept is a data exception, which is no integrity
  -- violation.
  pub data Inserts (name : String) (rows : Rows)
      : Result Error CardBrandRow → TxState → Type 0 where
    inserted :
        (row : CardBrandRow)
        → row.name ≡ name
        → s.accepts name ≡ true
        → Inserts name rows (ok row) (changed (insert row))
    duplicate :
        (t : String)
        → has_name s name rows ≡ true
        → Inserts name rows (err (pg db.unique_violation t)) aborted
    rejected :
        (code t : String)
        → s.accepts name ≡ false
        → db.is_integrity_constraint_violation code ≡ false
        → Inserts name rows (err (pg code t)) aborted
    cancelled :
        (code t : String)
        → s.cancels ≡ true
        → db.is_integrity_constraint_violation code ≡ false
        → Inserts name rows (err (pg code t)) aborted

  pub data Updates (name : String) (id : Uuid) (rows : Rows)
      : Result Error CardBrandRow → TxState → Type 0 where
    updated :
        (old row : CardBrandRow)
        → row.id ≡ id
        → row.name ≡ name
        → row.created_date ≡ old.created_date
        → s.accepts name ≡ true
        → Updates name id rows (ok row) (changed (replace old row))
    missing : find id rows ≡ none → Updates name id rows (err (sentinel no_rows)) clean
    duplicate :
        (t : String) (old : CardBrandRow)
        → find id rows ≡ some old
        → has_name s name (without id rows) ≡ true
        → Updates name id rows (err (pg db.unique_violation t)) aborted
    rejected :
        (code t : String)
        → s.accepts name ≡ false
        → db.is_integrity_constraint_violation code ≡ false
        → Updates name id rows (err (pg code t)) aborted
    cancelled :
        (code t : String)
        → s.cancels ≡ true
        → db.is_integrity_constraint_violation code ≡ false
        → Updates name id rows (err (pg code t)) aborted

  pub data Deletes (id : Uuid) (rows : Rows) : Result Error CardBrandRow → TxState → Type 0 where
    deleted : (row : CardBrandRow) → row.id ≡ id → Deletes id rows (ok row) (changed (remove row))
    missing : find id rows ≡ none → Deletes id rows (err (sentinel no_rows)) clean
    referenced :
        (t : String) (row : CardBrandRow)
        → find id rows ≡ some row
        → s.in_use id ≡ true
        → Deletes id rows (err (pg db.foreign_key_violation t)) aborted
    cancelled :
        (code t : String)
        → s.cancels ≡ true
        → db.is_integrity_constraint_violation code ≡ false
        → Deletes id rows (err (pg code t)) aborted

  abbrev pub found : Option CardBrandRow → Result Error CardBrandRow
  found none = err (sentinel no_rows)
  found (some row) = ok row

  -- The server, `committed` being the rows that every connection sees, `state tx` what the
  -- transaction `tx` has done, and `amid` what becomes of the rows by other connections. A row that a
  -- transaction has changed stays locked until its end, and so does a name in the unique index: that
  -- is why a change still fits when it is committed.
  pub record RunsShared (amid : Rows → Rows → Type 0) (committed : W → Rows)
      (state : ℕ → W → TxState) : Type 0 where
    pub begins :
        (w : W)
        → (tx : ℕ) × (v : W) × (db.begin w ≡ (ok tx, v))
          × (state tx v ≡ clean)
          × amid (committed w) (committed v)
    pub commits :
        (tx : ℕ) (c : Change) (w : W)
        → state tx w ≡ changed c
        → (v : W) × (rows : Rows) × (db.commit tx w ≡ (ok tt, v))
          × amid (committed w) rows
          × Fits s c rows
          × amid (apply c rows) (committed v)
    pub rolls_back :
        (tx : ℕ) (w : W)
        → state tx w ≢ closed
        → (v : W) × (db.rollback tx w ≡ (ok tt, v)) × amid (committed w) (committed v)
    pub inserts :
        (tx : ℕ) (w : W) (name : String)
        → state tx w ≡ clean
        → (r : Result Error CardBrandRow) × (v : W) × (rows : Rows) × (db.query_card_brand
              (some tx)
              Sqlc.create_card_brand_sql
              (text (some name) ∷ [])
              w
            ≡ (r, v))
          × amid (committed w) rows
          × Inserts name rows r (state tx v)
          × amid rows (committed v)
    pub updates :
        (tx : ℕ) (w : W) (name : String) (id : Uuid)
        → state tx w ≡ clean
        → (r : Result Error CardBrandRow) × (v : W) × (rows : Rows) × (db.query_card_brand
              (some tx)
              Sqlc.update_card_brand_sql
              (text (some name) ∷ uuid id ∷ [])
              w
            ≡ (r, v))
          × amid (committed w) rows
          × Updates name id rows r (state tx v)
          × amid rows (committed v)
    pub deletes :
        (tx : ℕ) (w : W) (id : Uuid)
        → state tx w ≡ clean
        → (r : Result Error CardBrandRow) × (v : W) × (rows : Rows) × (db.query_card_brand
              (some tx)
              Sqlc.delete_card_brand_sql
              (uuid id ∷ [])
              w
            ≡ (r, v))
          × amid (committed w) rows
          × Deletes id rows r (state tx v)
          × amid rows (committed v)
    pub gets :
        (w : W) (id : Uuid)
        → (v : W) × (rows : Rows) × (db.query_card_brand none Sqlc.get_card_brand_sql
              (uuid id ∷ [])
              w
            ≡ (found (find id rows), v))
          × amid (committed w) rows
          × amid rows (committed v)
    pub lists :
        (w : W) (id name : Option String) (off limit : ℕ)
        → (v : W) × (rows : Rows) × (db.query_card_brands none Sqlc.list_card_brands_sql
              (text id ∷ text name ∷ bigint off ∷ bigint limit ∷ [])
              w
            ≡ (ok (take limit (drop off (s.select rows id name))), v))
          × amid (committed w) rows
          × amid rows (committed v)

  -- Nobody else works on the table, and no statement is cancelled.
  abbrev pub RunsTable : (W → Rows) → (ℕ → W → TxState) → Type 0
  RunsTable committed state = RunsShared (λ a b. a ≡ b) committed state × (s.cancels ≡ false)
