-- ===== src/Accounts/Refinement/Repository.antt =====
-- The user repository outside a transaction, with what becomes of the table.
use finsplitter.Base.{String, ◌≡◌, none, some, [], ◌∷◌, arith, Option-cases, inl, inr, true, false}
use finsplitter.Effects.{Result, ok, err}
use finsplitter.Errs.{Error, sentinel, duplicate, not_found}
use finsplitter.Domain.Context.{Ctx}
use finsplitter.Postgres.Driver.{Database, HasPgCodes, UserRow, text}
use finsplitter.Postgres.Sqlc
use finsplitter.Postgres.Tx.{querier}
use finsplitter.Postgres.User as Repo
use finsplitter.Postgres.User.{user_of}
use finsplitter.Postgres.UserTable.{find_logto}
use finsplitter.Postgres.UserTable.Shared.{InsertsOnce, added, rejected, RunsAmid}
use finsplitter.Accounts.Spec.{Users}

module _ {W : Type 0} (db : Database W) (codes : HasPgCodes db) (amid : Users → Users → Type 0)
    (seen : W → Users) (runs : RunsAmid db amid seen) (ctx : Ctx) (outside : ctx.tx ≡ none)
    (id : String) (w : W) where
  -- How each call ends, with the rows at its time
  pub data CreateCases : Type 0 where
    created :
        (row : UserRow) (v : W) (rows : Users)
        → row.logto_user_id ≡ some id
        → find_logto id rows ≡ none
        → Repo.create db ctx id w ≡ (ok (user_of row), v)
        → amid (seen w) rows
        → amid (row ∷ rows) (seen v)
        → CreateCases
    refused :
        (row : UserRow) (v : W) (rows : Users)
        → find_logto id rows ≡ some row
        → Repo.create db ctx id w ≡ (err (sentinel duplicate), v)
        → amid (seen w) rows
        → amid rows (seen v)
        → CreateCases

  inserted_cases :
      (r : Result Error UserRow) (v : W) (rows table : Users)
      → db.query_user none Sqlc.create_user_sql (text (some id) ∷ []) w ≡ (r, v)
      → amid (seen w) rows
      → InsertsOnce db id rows r table
      → amid table (seen v)
      → CreateCases
  unfolding Repo.create Repo.create_error querier
  inserted_cases _ v rows _ q comes (added row named fresh) goes =
      created row v rows named fresh (ground (arith, outside)) comes goes
  inserted_cases _ v rows _ q comes (rejected t row there) goes =
      refused row v rows there (ground (arith, codes, outside)) comes goes

  pub create_cases : CreateCases
  create_cases =
      let (r, v, rows, table, q, comes, answer, goes) = runs.inserts id w in
      inserted_cases r v rows table q comes answer goes

  pub data GetCases : Type 0 where
    got :
        (row : UserRow) (v : W) (rows : Users)
        → find_logto id rows ≡ some row
        → Repo.get_by_logto_user_id db ctx id w ≡ (ok (user_of row), v)
        → amid (seen w) rows
        → amid rows (seen v)
        → GetCases
    missed :
        (v : W) (rows : Users)
        → find_logto id rows ≡ none
        → Repo.get_by_logto_user_id db ctx id w ≡ (err (sentinel not_found), v)
        → amid (seen w) rows
        → amid rows (seen v)
        → GetCases

  pub get_cases : GetCases
  unfolding Repo.get_by_logto_user_id querier
  get_cases =
      let (v, rows, q, comes, goes) = runs.selects id w in
      elim (Option-cases (find_logto id rows)) [
        | inl absent ↦ missed v rows absent (ground (arith, outside)) comes goes
        | inr (row, there) ↦ got row v rows there (ground (arith, outside)) comes goes
      ]

  pub data ExistsCases : Type 0 where
    known :
        (row : UserRow) (v : W) (rows : Users)
        → find_logto id rows ≡ some row
        → Repo.exists_by_logto_user_id db ctx id w ≡ (ok true, v)
        → amid (seen w) rows
        → amid rows (seen v)
        → ExistsCases
    unknown :
        (v : W) (rows : Users)
        → find_logto id rows ≡ none
        → Repo.exists_by_logto_user_id db ctx id w ≡ (ok false, v)
        → amid (seen w) rows
        → amid rows (seen v)
        → ExistsCases

  pub exists_cases : ExistsCases
  unfolding Repo.exists_by_logto_user_id querier
  exists_cases =
      let (v, rows, q, comes, goes) = runs.exists id w in
      elim (Option-cases (find_logto id rows)) [
        | inl absent ↦ unknown v rows absent (ground (arith, outside)) comes goes
        | inr (row, there) ↦ known row v rows there (ground (arith, outside)) comes goes
      ]
