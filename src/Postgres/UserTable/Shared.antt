-- ===== src/Postgres/UserTable/Shared.antt =====
-- The table "user" outside transactions, while other connections change it: what PostgreSQL
-- documents of one statement at a time (a hypothesis on the driver).
use finsplitter.Base.{String, ◌≡◌, refl, none, some, List, [], ◌∷◌, Option, ℕ}
use finsplitter.Effects.{Result, ok, err}
use finsplitter.Errs.{Error, pg}
use finsplitter.Postgres.Driver.{Database, UserRow, text}
use finsplitter.Postgres.Sqlc
use finsplitter.Postgres.UserTable.{
  find_logto, found, is_found, InsertsUser, inserted, taken, RunsUsers,
}

module _ {W : Type 0} (db : Database W) where
  -- INSERT, with the unique index user_unique_logto_user_id, on the rows at its time
  pub data InsertsOnce (id : String) (rows : List UserRow)
      : Result Error UserRow → List UserRow → Type 0 where
    added :
        (row : UserRow)
        → row.logto_user_id ≡ some id
        → find_logto id rows ≡ none
        → InsertsOnce id rows (ok row) (row ∷ rows)
    rejected :
        (t : String) (row : UserRow)
        → find_logto id rows ≡ some row
        → InsertsOnce id rows (err (pg db.unique_violation t)) rows

  -- Each statement takes effect at one time; before and after it, the rows change by `amid`.
  pub record RunsAmid (amid : List UserRow → List UserRow → Type 0) (seen : W → List UserRow)
      : Type 0 where
    pub inserts :
        (id : String) (w : W)
        → (r : Result Error UserRow) × (v : W) × (rows table : List UserRow) × (db.query_user none
              Sqlc.create_user_sql
              (text (some id) ∷ [])
              w
            ≡ (r, v))
          × amid (seen w) rows
          × InsertsOnce id rows r table
          × amid table (seen v)
    pub selects :
        (id : String) (w : W)
        → (v : W) × (rows : List UserRow) × (db.query_user none Sqlc.get_user_by_logto_user_id_sql
              (text (some id) ∷ [])
              w
            ≡ (found db (find_logto id rows), v))
          × amid (seen w) rows
          × amid rows (seen v)
    pub exists :
        (id : String) (w : W)
        → (v : W) × (rows : List UserRow) × (db.query_bool none Sqlc.exists_by_logto_user_id_sql
              (text (some id) ∷ [])
              w
            ≡ (ok (is_found db (find_logto id rows)), v))
          × amid (seen w) rows
          × amid rows (seen v)

  module _ (sees : Option ℕ → W → List UserRow) (runs : RunsUsers db sees) where
    alone :
        (id : String) (w v : W) (r : Result Error UserRow) (rows : List UserRow)
        → db.query_user none Sqlc.create_user_sql (text (some id) ∷ []) w ≡ (r, v)
        → sees none v ≡ rows
        → InsertsUser db id (sees none w) r rows
        → InsertsOnce id (sees none w) r (sees none v)
    alone id w v _ _ q l (inserted row named fresh) = rw l (added row named fresh)
    alone id w v _ _ q l (taken t row _ there) = rw (runs.fails id w v _ q) (rejected t row there)

    -- one connection after the other
    pub RunsUsers-RunsAmid : RunsAmid (λ a b. a ≡ b) (sees none)
    RunsUsers-RunsAmid = record {
      inserts = λ id w.
          let (r, v, q, answer) = runs.inserts none id w (runs.pool w) in
          (
            r,
            v,
            sees none w,
            sees none v,
            q,
            refl,
            alone id w v r (sees none v) q refl answer,
            refl,
          );
      selects = λ id w. (w, sees none w, runs.selects none id w (runs.pool w), refl, refl);
      exists = λ id w. (w, sees none w, runs.exists none id w (runs.pool w), refl, refl);
    }
