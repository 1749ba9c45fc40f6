-- ===== src/Tests/Database.antt =====
-- A database in memory, with one transaction at a time.
use finsplitter.Base.{
  String, ◌==◌, refl, arith, eq_iff, Bool, true, false, Option, none, some, List, [], ◌∷◌, any, eqb,
  take, drop, get_or, ◌||◌, if◌then◌else◌,
}
use finsplitter.Effects.{Result, ok, err}
use finsplitter.Errs.{Error, sentinel, plain, pg, no_rows}
use finsplitter.Domain.{Uuid}
use finsplitter.Postgres.Driver.{
  Arg, CardBrandRow, Database, IsTransactional, HasPgCodes, text, uuid, bigint,
}

-- The committed rows, and those that the open transaction sees
pub record Memory : Type 0 where
  pub rows : List CardBrandRow
  pub draft : List CardBrandRow

abbrev pub brand : Uuid → String → CardBrandRow
brand id name = record {
  id = id;
  name = name;
  created_date = record { time = 1; valid = true };
  last_modified_date = record { time = 2; valid = true };
}

-- the row with the ID `9` is one that other rows refer to
abbrev pub memory : Memory
memory = record { rows = brand 7 "Visa" ∷ brand 8 "Elo" ∷ brand 9 "Amex" ∷ []; draft = [] }

abbrev without : Uuid → List CardBrandRow → List CardBrandRow
without id [] = []
without id (row ∷ rows) = if eqb row.id id then rows else row ∷ without id rows

abbrev find : Uuid → List CardBrandRow → Option CardBrandRow
find id [] = none
find id (row ∷ rows) = if eqb row.id id then some row else find id rows

abbrev has_name : String → List CardBrandRow → Bool
has_name name rows = any (λ row. row.name == name) rows

abbrev insert : Option String → List CardBrandRow → Result Error CardBrandRow × List CardBrandRow
insert name rows =
    if has_name (get_or name "") rows
    then (err (pg "23505" "duplicate key"), rows)
    else (ok (brand 10 (get_or name "")), brand 10 (get_or name "") ∷ rows)

abbrev change :
    Option String → Uuid → List CardBrandRow → Result Error CardBrandRow × List CardBrandRow
change name id rows = elim (find id rows) as (λ _. Result Error CardBrandRow × List CardBrandRow) [
  | none ↦ (err (sentinel no_rows), rows)
  | some row ↦
      if has_name (get_or name "") rows
      then (err (pg "23505" "duplicate key"), rows)
      else (ok (brand id (get_or name "")), brand id (get_or name "") ∷ without id rows)
]

abbrev remove : Uuid → List CardBrandRow → Result Error CardBrandRow × List CardBrandRow
remove id rows = elim (find id rows) as (λ _. Result Error CardBrandRow × List CardBrandRow) [
  | none ↦ (err (sentinel no_rows), rows)
  | some row ↦
      if eqb id 9 then (err (pg "23503" "still referenced"), rows) else (ok row, without id rows)
]

abbrev statement :
    String → List Arg → List CardBrandRow → Result Error CardBrandRow × List CardBrandRow
statement sql (text name ∷ []) rows = insert name rows
statement sql (text name ∷ uuid id ∷ []) rows = change name id rows
statement sql (uuid id ∷ []) rows = remove id rows
statement sql _ rows = (err (plain "syntax error"), rows)

abbrev page_of : List Arg → List CardBrandRow → List CardBrandRow
page_of (_ ∷ _ ∷ bigint off ∷ bigint limit ∷ []) rows = take limit (drop off rows)
page_of _ rows = []

abbrev pub memory_db : Database Memory
memory_db = record {
  begin = λ w. (ok 1, record w { draft = w.rows });
  commit = λ tx w. (ok tt, record w { rows = w.draft });
  rollback = λ tx w. (ok tt, record w { draft = [] });
  query_card_brand =
      λ tx sql args w. let (r, rows) = statement sql args w.draft in (r, record w { draft = rows });
  query_card_brands = λ tx sql args w. (ok (page_of args w.rows), w);
  query_user = λ tx sql args w. (err (sentinel no_rows), w);
  query_bool = λ tx sql args w. (ok false, w);
  is_integrity_constraint_violation = λ code. code == "23505" || code == "23503" || code == "23514";
  unique_violation = "23505";
  foreign_key_violation = "23503";
}

pub memory_db-IsTransactional : IsTransactional memory_db (λ w. w.rows)
memory_db-IsTransactional = record {
  begin_keeps = λ w. refl;
  rollback_keeps = λ tx w. refl;
  card_brand_keeps = λ tx sql args w. refl;
}

pub memory_db-HasPgCodes : HasPgCodes memory_db
memory_db-HasPgCodes = record {
  unique_is_integrity = refl;
  foreign_key_is_integrity = refl;
  codes_differ = ground (arith, eq_iff "23505" "23503");
}
