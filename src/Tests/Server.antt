-- ===== src/Tests/Server.antt =====
-- A PostgreSQL server in memory, with one connection for the code, and other clients that change the
-- table whenever it is called; it satisfies what is assumed of it.
use finsplitter.Base.{
  ℕ, String, ◌==◌, ◌≡◌, refl, ap, subst, arith, eq_iff, false, Option, none, some, List, [], ◌∷◌,
  eqb, ltb, ◌||◌, count, Bool-cases, Option-cases, inl, inr,
}
use finsplitter.Effects.{Result, ok, err}
use finsplitter.Errs.{Error, sentinel, plain, no_rows}
use finsplitter.Domain.{Uuid}
use finsplitter.Postgres.Driver.{Arg, CardBrandRow, Database, HasPgCodes, text, uuid}
use finsplitter.Traces.{IsPassage, ≡-IsPassage}
use finsplitter.Postgres.Table.{
  Rows, TxState, closed, aborted, clean, changed, apply, RunsTable, RunsShared, find, without,
  has_name, Inserts, Updates, Deletes, inserted, rejected, updated, deleted, referenced,
}
use finsplitter.CardBrands.Spec.Observed.{find-id}
use finsplitter.Tests.Statements.{
  schema, new_id, new_row, Sound, insert_row, renamed, change, remove_row, statement,
  statement-Sound, lookup_row, page_of,
}

pub record Server : Type 0 where
  pub rows : Rows
  pub session : TxState
  pub sound : Sound session rows

-- What the other clients do whenever the code calls the server
pub record Clients : Type 0 where
  pub meanwhile : TxState → Rows → Rows
  pub keeps : (st : TxState) (rows : Rows) → Sound st rows → Sound st (meanwhile st rows)

-- none
abbrev pub alone : Clients
alone = record { meanwhile = λ st rows. rows; keeps = λ st rows h. h }

module _ (clients : Clients) where
  abbrev settle : Server → Server
  settle w = record {
    rows = clients.meanwhile w.session w.rows;
    session = w.session;
    sound = clients.keeps w.session w.rows w.sound;
  }

  abbrev begin : Server → Server
  begin w = settle (record { rows = w.rows; session = clean; sound = tt })

  abbrev run_statement : List Arg → Server → Result Error CardBrandRow × Server
  run_statement args w = (
    (statement args w.rows).0,
    record {
      rows = w.rows;
      session = (statement args w.rows).1;
      sound = statement-Sound args w.rows;
    },
  )

  abbrev Ran : Type 0
  Ran = Result Error CardBrandRow × Server

  abbrev if_clean : TxState → (this that : Ran) → Ran
  if_clean clean this that = this
  if_clean _ this that = that

  abbrev run_one : Option ℕ → List Arg → Server → Ran
  run_one none args w = (lookup_row args (settle w).rows, settle w)
  run_one (some tx) args w =
      if_clean w.session (run_statement args (settle w)) (err (plain "one statement only"), w)

  if_clean-eq : (st : TxState) (this that : Ran) → st ≡ clean → if_clean st this that ≡ this
  if_clean-eq st this that h = ap (λ x. if_clean x this that) h

  abbrev finish : Rows → Server
  finish rows = settle (record { rows = rows; session = closed; sound = tt })

  abbrev commit : Server → Result Error (Unit {0}) × Server
  commit w = elim w.session as (λ _. Result Error (Unit {0}) × Server) [
    | closed ↦ (err (plain "tx is closed"), w)
    | aborted ↦ (err (plain "commit resulted in rollback"), finish w.rows)
    | clean ↦ (ok tt, finish w.rows)
    | changed c ↦ (ok tt, finish (apply c w.rows))
  ]

  abbrev rollback : Server → Result Error (Unit {0}) × Server
  rollback w = elim w.session as (λ _. Result Error (Unit {0}) × Server) [
    | closed ↦ (err (plain "tx is closed"), w)
    | _ ↦ (ok tt, finish w.rows)
  ]

  abbrev pub shared_db : Database Server
  shared_db = record {
    begin = λ w. (ok 1, begin w);
    commit = λ tx w. commit w;
    rollback = λ tx w. rollback w;
    query_card_brand = λ tx sql args w. run_one tx args w;
    query_card_brands = λ tx sql args w. (ok (page_of args (settle w).rows), settle w);
    query_user = λ tx sql args w. (err (sentinel no_rows), w);
    query_bool = λ tx sql args w. (ok false, w);
    is_integrity_constraint_violation = λ code. code == "23505" || code == "23503";
    unique_violation = "23505";
    foreign_key_violation = "23503";
  }

  abbrev pub session_of : ℕ → Server → TxState
  session_of tx w = w.session

  pub shared_db-HasPgCodes : HasPgCodes shared_db
  shared_db-HasPgCodes = record {
    unique_is_integrity = refl;
    foreign_key_is_integrity = refl;
    codes_differ = ground (arith, eq_iff "23505" "23503");
  }

  inserts_lem :
      (name : String) (rows : Rows)
      → Inserts shared_db schema name rows (insert_row name rows).0 (insert_row name rows).1
  inserts_lem name rows = elim (Bool-cases (ltb (count name) 101)) [
    | inr long ↦ rw long (rejected "22001" "value too long" long refl)
    | inl fits ↦ elim (Bool-cases (has_name schema name rows)) [
      | inl taken ↦ rw (fits, taken) (Inserts.duplicate "duplicate key" taken)
      | inr free ↦ rw (fits, free) (inserted (new_row (new_id rows) name) refl fits)
    ]
  ]

  changes_lem :
      (name : String) (id : Uuid) (rows : Rows)
      → Updates shared_db schema name id rows (change name id rows).0 (change name id rows).1
  changes_lem name id rows = elim (Option-cases (find id rows)) [
    | inl absent ↦ rw (change, absent) (Updates.missing absent)
    | inr (old, there) ↦ elim (Bool-cases (ltb (count name) 101)) [
      | inr long ↦ rw (change, there, long) (Updates.rejected "22001" "value too long" long refl)
      | inl fits ↦ elim (Bool-cases (has_name schema name (without id rows))) [
        | inl taken ↦
            rw (change, there, fits, taken) (Updates.duplicate "duplicate key" old there taken)
        | inr free ↦
            rw (change, there, fits, free) (updated old (renamed old id name) refl refl refl fits)
      ]
    ]
  ]

  removes_lem :
      (id : Uuid) (rows : Rows)
      → Deletes shared_db schema id rows (remove_row id rows).0 (remove_row id rows).1
  removes_lem id rows = elim (Option-cases (find id rows)) [
    | inl absent ↦ rw (remove_row, absent) (Deletes.missing absent)
    | inr (row, there) ↦ elim (Bool-cases (eqb id 9)) [
      | inl used ↦ rw (remove_row, there, used) (referenced "still referenced" row there used)
      | inr unused ↦ rw (remove_row, there, unused) (deleted row (find-id id rows row there))
    ]
  ]

  module _ (amid : Rows → Rows → Type 0)
      (moves : (st : TxState) (rows : Rows) → amid rows (clients.meanwhile st rows))
      (pass : IsPassage amid) where
    pub shared_db-RunsShared : RunsShared shared_db schema amid (λ w. w.rows) session_of
    shared_db-RunsShared = record {
      begins = λ w. (1, begin w, refl, refl, moves clean w.rows);
      commits = λ tx c w open_tx. (
        finish (apply c w.rows),
        w.rows,
        ground arith,
        pass.nothing w.rows,
        subst (λ st. Sound st w.rows) open_tx w.sound,
        moves closed (apply c w.rows),
      );
      rolls_back = λ tx w open_tx. (finish w.rows, ground arith, moves closed w.rows);
      inserts = λ tx w name open_tx.
          let rows = (settle w).rows in
          (
            (insert_row name rows).0,
            (run_statement (text (some name) ∷ []) (settle w)).1,
            rows,
            if_clean-eq w.session _ _ open_tx,
            moves w.session w.rows,
            inserts_lem name rows,
            pass.nothing rows,
          );
      updates = λ tx w name id open_tx.
          let rows = (settle w).rows in
          (
            (change name id rows).0,
            (run_statement (text (some name) ∷ uuid id ∷ []) (settle w)).1,
            rows,
            if_clean-eq w.session _ _ open_tx,
            moves w.session w.rows,
            changes_lem name id rows,
            pass.nothing rows,
          );
      deletes = λ tx w id open_tx.
          let rows = (settle w).rows in
          (
            (remove_row id rows).0,
            (run_statement (uuid id ∷ []) (settle w)).1,
            rows,
            if_clean-eq w.session _ _ open_tx,
            moves w.session w.rows,
            removes_lem id rows,
            pass.nothing rows,
          );
      gets = λ w id.
          let rows = (settle w).rows in
          (settle w, rows, ground arith, moves w.session w.rows, pass.nothing rows);
      lists = λ w id name off limit.
          let rows = (settle w).rows in
          (settle w, rows, refl, moves w.session w.rows, pass.nothing rows);
    }

-- With no other client
abbrev pub server_db : Database Server
server_db = shared_db alone

pub server_db-HasPgCodes : HasPgCodes server_db
server_db-HasPgCodes = shared_db-HasPgCodes alone

pub server_db-RunsTable : RunsTable server_db schema (λ w. w.rows) (session_of alone)
server_db-RunsTable =
    (shared_db-RunsShared alone (λ a b. a ≡ b) (λ st rows. refl) ≡-IsPassage, refl)
