-- ===== src/Tests/UserServer.antt =====
-- The user repository on a table of users in memory.
use finsplitter.Base.{
  ℕ, String, ◌==◌, refl, Bool, true, false, Option, none, some, List, [], ◌∷◌, arith, eq_iff, ◌||◌,
  Option-cases, inl, inr, if◌then◌else◌,
}
use finsplitter.Effects.{Result, ok, err}
use finsplitter.Errs.{Error, sentinel, plain, pg, no_rows}
use finsplitter.Postgres.Driver.{Database, HasPgCodes, Arg, UserRow, text}
use finsplitter.Postgres.Sqlc
use finsplitter.Postgres.User.{user_repository}
use finsplitter.Postgres.UserTable.{
  find_logto, InsertsUser, inserted, taken, RunsUsers, user_repository-KeepsUsers,
}
use finsplitter.Accounts.Handlers.Setup.{KeepsUsers}

abbrev pub Users : Type 0
Users = List UserRow

abbrev pub new_user : String → UserRow
new_user id = record {
  id = 1;
  logto_user_id = some id;
  created_date = record { time = 1; valid = true };
  last_modified_date = record { time = 1; valid = true };
}

abbrev insert : String → Users → Result Error UserRow × Users
insert id rows = elim (find_logto id rows) as (λ _. Result Error UserRow × Users) [
  | none ↦ (ok (new_user id), new_user id ∷ rows)
  | some row ↦ (err (pg "23505" "duplicate key"), rows)
]

abbrev find_user : Option UserRow → Result Error UserRow
find_user none = err (sentinel no_rows)
find_user (some row) = ok row

abbrev query_user : String → List Arg → Users → Result Error UserRow × Users
query_user sql (text (some id) ∷ []) rows =
    if sql == Sqlc.create_user_sql then insert id rows else (find_user (find_logto id rows), rows)
query_user sql _ rows = (err (plain "syntax error"), rows)

abbrev query_bool : List Arg → Users → Result Error Bool × Users
query_bool (text (some id) ∷ []) rows =
    (ok (elim (find_logto id rows) [ none ↦ false | some _ ↦ true ]), rows)
query_bool _ rows = (err (plain "syntax error"), rows)

abbrev pub users_db : Database Users
users_db = record {
  begin = λ w. (err (plain "no transactions"), w);
  commit = λ tx w. (err (plain "no transactions"), w);
  rollback = λ tx w. (err (plain "no transactions"), w);
  query_card_brand = λ tx sql args w. (err (sentinel no_rows), w);
  query_card_brands = λ tx sql args w. (ok [], w);
  query_user = λ tx sql args w. query_user sql args w;
  query_bool = λ tx sql args w. query_bool args w;
  is_integrity_constraint_violation = λ code. code == "23505" || code == "23503";
  unique_violation = "23505";
  foreign_key_violation = "23503";
}

pub users_db-HasPgCodes : HasPgCodes users_db
users_db-HasPgCodes = record {
  unique_is_integrity = refl;
  foreign_key_is_integrity = refl;
  codes_differ = ground (arith, eq_iff "23505" "23503");
}

inserts_lem :
    (id : String) (rows : Users)
    → InsertsUser users_db id rows (insert id rows).0 (insert id rows).1
inserts_lem id rows = elim (Option-cases (find_logto id rows)) [
  | inl fresh ↦ rw (insert, fresh) (inserted (new_user id) refl fresh)
  | inr (row, there) ↦ rw (insert, there) (taken "duplicate key" row rows there)
]

pub users_db-RunsUsers : RunsUsers users_db (λ c w. w)
users_db-RunsUsers = record {
  usable = λ c w. Unit {0};
  pool = λ w. tt;
  succeeds = λ c id w v row h. (tt, tt);
  inserts = λ c id w h. ((insert id w).0, (insert id w).1, refl, inserts_lem id w);
  selects = λ c id w h. ground arith;
  exists = λ c id w h. ground arith;
  fails = λ id w v e h. elim (Option-cases (find_logto id w)) [
    | inl fresh ↦ absurd (ground arith)
    | inr (row, there) ↦ ground arith
  ];
}

-- every connection runs statements
pub any_usable : (c : Option ℕ) (w : Users) → users_db-RunsUsers.usable c w
unfolding users_db-RunsUsers
any_usable c w = tt

user_repository-KeepsUsers_example : KeepsUsers (user_repository users_db)
user_repository-KeepsUsers_example =
    user_repository-KeepsUsers users_db (λ c w. w) users_db-RunsUsers
