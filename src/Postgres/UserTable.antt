-- ===== src/Postgres/UserTable.antt =====
-- The table "user", what PostgreSQL documents of the statements on it (a hypothesis on the driver,
-- for calls that run one after the other), and what the user repository makes of it.
pub mod Shared
use finsplitter.Base.{
  ℕ, String, ◌==◌, ◌≡◌, ◌⊎◌, refl, Bool, true, false, Option, none, some, List, [], ◌∷◌, arith,
  eq_refl, inl, inr, if◌then◌else◌,
}
use finsplitter.Effects.{Result, ok, err}
use finsplitter.Effects.Laws.{run_cases, returns, fails, panics}
use finsplitter.Errs.{Error, sentinel, pg, no_rows, duplicate}
use finsplitter.Domain.{User}
use finsplitter.Domain.Context.{Ctx}
use finsplitter.Postgres.Driver.{Database, HasPgCodes, UserRow, text}
use finsplitter.Postgres.Sqlc
use finsplitter.Postgres.Tx.{querier}
use finsplitter.Postgres.User as Repo
use finsplitter.Postgres.User.{new_user_from_row, user_of, user_repository}
use finsplitter.Accounts.Handlers.Setup.{KeepsUsers}

abbrev has_logto_id : String → UserRow → Bool
has_logto_id id row = elim row.logto_user_id [ none ↦ false | some other ↦ other == id ]

abbrev pub find_logto : String → List UserRow → Option UserRow
find_logto id [] = none
find_logto id (row ∷ rows) = if has_logto_id id row then some row else find_logto id rows

module _ {W : Type 0} (db : Database W) where
  -- INSERT, with the unique index user_unique_logto_user_id; `rows` are those that the connection
  -- sees, before and afterwards. A failed statement may leave its transaction aborted.
  pub data InsertsUser (id : String) (rows : List UserRow)
      : Result Error UserRow → List UserRow → Type 0 where
    inserted :
        (row : UserRow)
        → row.logto_user_id ≡ some id
        → find_logto id rows ≡ none
        → InsertsUser id rows (ok row) (row ∷ rows)
    taken :
        (t : String) (row : UserRow) (rows' : List UserRow)
        → find_logto id rows ≡ some row
        → InsertsUser id rows (err (pg db.unique_violation t)) rows'

  abbrev pub found : Option UserRow → Result Error UserRow
  found none = err (sentinel no_rows)
  found (some row) = ok row

  abbrev pub is_found : Option UserRow → Bool
  is_found none = false
  is_found (some _) = true

  -- One client alone: between its statements nobody else writes to the table. `sees` gives the rows
  -- that a transaction, or a connection of the pool, sees. `usable` is a connection that runs
  -- statements: one of the pool, or an open transaction that is not aborted; a statement that
  -- succeeds has run on such a connection, and leaves it so. Reading changes nothing.
  pub record RunsUsers (sees : Option ℕ → W → List UserRow) : Type 1 where
    pub usable : Option ℕ → W → Type 0
    pub pool : (w : W) → usable none w
    pub succeeds :
        (c : Option ℕ) (id : String) (w v : W) (row : UserRow)
        → db.query_user c Sqlc.create_user_sql (text (some id) ∷ []) w ≡ (ok row, v)
        → usable c w × usable c v
    pub inserts :
        (c : Option ℕ) (id : String) (w : W)
        → usable c w
        → (r : Result Error UserRow) × (v : W) × (db.query_user c Sqlc.create_user_sql
              (text (some id) ∷ [])
              w
            ≡ (r, v))
          × InsertsUser id (sees c w) r (sees c v)
    pub selects :
        (c : Option ℕ) (id : String) (w : W)
        → usable c w
        → db.query_user c Sqlc.get_user_by_logto_user_id_sql (text (some id) ∷ []) w
          ≡ (found (find_logto id (sees c w)), w)
    pub exists :
        (c : Option ℕ) (id : String) (w : W)
        → usable c w
        → db.query_bool c Sqlc.exists_by_logto_user_id_sql (text (some id) ∷ []) w
          ≡ (ok (is_found (find_logto id (sees c w))), w)
    -- Outside a transaction, a failed INSERT leaves no trace.
    pub fails :
        (id : String) (w v : W) (e : Error)
        → db.query_user none Sqlc.create_user_sql (text (some id) ∷ []) w ≡ (err e, v)
        → sees none v ≡ sees none w

  -- A new user, or the answer for an ID that is taken
  abbrev pub IsCreated : (Option ℕ → W → List UserRow) → Ctx → String → W → Type 0
  IsCreated sees ctx id w =
      ((find_logto id (sees ctx.tx w) ≡ none)
        × (user : User) × (v : W) × (Repo.create db ctx id w ≡ (ok user, v))
        × (user.logto_user_id ≡ id)
        × (Repo.get_by_logto_user_id db ctx id v ≡ (ok user, v)))
      ⊎ ((row : UserRow) × (find_logto id (sees ctx.tx w) ≡ some row)
          × (v : W) × (Repo.create db ctx id w ≡ (err (sentinel duplicate), v)))

  module _ (sees : Option ℕ → W → List UserRow) (runs : RunsUsers sees) where
    get_reads :
        (ctx : Ctx) (id : String) (row : UserRow) (w : W)
        → runs.usable ctx.tx w
        → find_logto id (sees ctx.tx w) ≡ some row
        → Repo.get_by_logto_user_id db ctx id w ≡ (ok (user_of row), w)
    unfolding Repo.get_by_logto_user_id querier
    get_reads ctx id row w live there = ground (arith, runs.selects ctx.tx id w live)

    -- the INSERT of a successful Create
    create_inserts :
        (ctx : Ctx) (id : String) (w w' : W) (user : User)
        → Repo.create db ctx id w ≡ (ok user, w')
        → (row : UserRow) × (db.query_user ctx.tx Sqlc.create_user_sql (text (some id) ∷ []) w
            ≡ (ok row, w'))
          × (user ≡ user_of row)
    unfolding Repo.create querier
    create_inserts ctx id w w' user h =
        elim (run_cases (db.query_user ctx.tx Sqlc.create_user_sql (text (some id) ∷ []) w)) [
          | returns row v q ↦ (row, ground arith, ground arith)
          | fails e v q ↦ absurd (ground arith)
          | panics p v q ↦ absurd (ground arith)
        ]

    inserted_row :
        (id : String) (c : Option ℕ) (w v : W) (row : UserRow)
        → db.query_user c Sqlc.create_user_sql (text (some id) ∷ []) w ≡ (ok row, v)
        → find_logto id (sees c v) ≡ some row
    inserted_row id c w v row q =
        let (r, x, p, answer) = runs.inserts c id w (runs.succeeds c id w v row q).0 in
        left r (sees c x) (ground arith) (ground arith) answer
      where
        left :
            (r : Result Error UserRow) (rows : List UserRow)
            → r ≡ ok row
            → sees c v ≡ rows
            → InsertsUser id (sees c w) r rows
            → find_logto id (sees c v) ≡ some row
        left _ _ is_row l (inserted other named fresh) = ground (arith, eq_refl id)
        left _ _ is_row l (taken t other rows' there) = absurd (ground arith)

    -- What follows a successful Create
    create_left :
        (ctx : Ctx) (id : String) (w w' : W) (user : User)
        → Repo.create db ctx id w ≡ (ok user, w')
        → (row : UserRow) × (find_logto id (sees ctx.tx w') ≡ some row)
          × (user ≡ user_of row)
          × runs.usable ctx.tx w'
    create_left ctx id w w' user h =
        let (row, q, same) = create_inserts ctx id w w' user h in
        (row, inserted_row id ctx.tx w w' row q, same, (runs.succeeds ctx.tx id w w' row q).1)

    -- On PostgreSQL, while nobody else writes to the table of users: once Create has succeeded, on
    -- the pool or in a transaction, Get on the same connection finds the same user next, and Exists
    -- answers true.
    pub user_repository-KeepsUsers : KeepsUsers (user_repository db)
    unfolding Repo.exists_by_logto_user_id querier
    user_repository-KeepsUsers = record {
      create_get = λ ctx id w w' user h.
          let (row, there, same, live) = create_left ctx id w w' user h in
          ground (arith, get_reads ctx id row w' live there);
      create_exists = λ ctx c id w w' user same_tx h.
          let (row, there, same, live) = create_left ctx id w w' user h in
          let reads = runs.exists ctx.tx id w' live in ground (arith, reads, same_tx, there);
    }

    -- Create on PostgreSQL, on a connection that runs statements and while nobody else writes to the
    -- table of users, for an ID that no row has and for one that a row has: a user with that ID,
    -- whom Get finds afterwards, or the sentinel for a duplicate.
    create-IsCreated :
        (codes : HasPgCodes db) (ctx : Ctx) (id : String) (w : W)
        → runs.usable ctx.tx w
        → IsCreated sees ctx id w
    unfolding Repo.create Repo.create_error new_user_from_row querier
    create-IsCreated codes ctx id w live =
        let (r, v, q, answer) = runs.inserts ctx.tx id w live in
        outcome r (sees ctx.tx v) v q refl answer
      where
        outcome :
            (r : Result Error UserRow) (rows : List UserRow) (v : W)
            → db.query_user ctx.tx Sqlc.create_user_sql (text (some id) ∷ []) w ≡ (r, v)
            → sees ctx.tx v ≡ rows
            → InsertsUser id (sees ctx.tx w) r rows
            → IsCreated sees ctx id w
        outcome _ _ v q l (inserted row named fresh) =
            let there : find_logto id (sees ctx.tx v) ≡ some row = ground (arith, eq_refl id) in
            let still = (runs.succeeds ctx.tx id w v row q).1 in
            inl (
              fresh,
              user_of row,
              v,
              ground arith,
              ground arith,
              get_reads ctx id row v still there,
            )
        outcome _ _ v q l (taken t row rows' there) = inr (row, there, v, ground (arith, codes))
