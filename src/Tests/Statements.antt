-- ===== src/Tests/Statements.antt =====
-- The statements on card brands, on a table in memory.
use finsplitter.Base.{
  ℕ, ◌+◌, ◌≤◌, max, String, ◌==◌, ◌≡◌, refl, sym, subst, arith, true, false, none, some, List, [],
  ◌∷◌, eqb, ltb, take, drop, if◌then◌else◌, count, Bool-cases, Option-cases, inl, inr,
}
use finsplitter.Effects.{Result, ok, err}
use finsplitter.Errs.{Error, sentinel, plain, pg, no_rows}
use finsplitter.Domain.{Uuid}
use finsplitter.Postgres.Driver.{Arg, CardBrandRow, text, uuid, bigint}
use finsplitter.CardBrands.Spec.Observed.{find-id}
use finsplitter.Postgres.Table.{
  Schema, Rows, TxState, aborted, clean, changed, insert, replace, remove, Fits, find, without,
  has_name,
}

abbrev pub schema : Schema
schema = record {
  lower = λ name. if name == "visa" then "VISA" else if name == "Visa" then "VISA" else name;
  accepts = λ name. ltb (count name) 101;
  in_use = λ id. eqb id 9;
  cancels = false;
  select = λ rows id name. rows;
}

abbrev pub new_id : Rows → Uuid
new_id [] = 1
new_id (row ∷ rows) = max (row.id + 1) (new_id rows)

abbrev pub new_row : Uuid → String → CardBrandRow
new_row id name = record {
  id = id;
  name = name;
  created_date = record { time = 1; valid = true };
  last_modified_date = record { time = 1; valid = true };
}

-- A change that is not committed yet fits.
abbrev pub Sound : TxState → Rows → Type 0
Sound (changed c) rows = Fits schema c rows
Sound _ rows = Unit {0}

abbrev pub Answer : Type 0
Answer = Result Error CardBrandRow × TxState

abbrev pub insert_row : String → Rows → Answer
insert_row name rows =
    if ltb (count name) 101
    then if has_name schema name rows
      then (err (pg "23505" "duplicate key"), aborted)
      else (ok (new_row (new_id rows) name), changed (insert (new_row (new_id rows) name)))
    else (err (pg "22001" "value too long"), aborted)

abbrev pub renamed : CardBrandRow → Uuid → String → CardBrandRow
renamed old id name = record old { id = id; name = name }

abbrev pub change : String → Uuid → Rows → Answer
change name id rows = elim (find id rows) as (λ _. Answer) [
  | none ↦ (err (sentinel no_rows), clean)
  | some old ↦
      if ltb (count name) 101
      then if has_name schema name (without id rows)
        then (err (pg "23505" "duplicate key"), aborted)
        else (ok (renamed old id name), changed (replace old (renamed old id name)))
      else (err (pg "22001" "value too long"), aborted)
]

abbrev pub remove_row : Uuid → Rows → Answer
remove_row id rows = elim (find id rows) as (λ _. Answer) [
  | none ↦ (err (sentinel no_rows), clean)
  | some row ↦
      if eqb id 9
      then (err (pg "23503" "still referenced"), aborted)
      else (ok row, changed (remove row))
]

abbrev pub statement : List Arg → Rows → Answer
statement (text (some name) ∷ []) rows = insert_row name rows
statement (text (some name) ∷ uuid id ∷ []) rows = change name id rows
statement (uuid id ∷ []) rows = remove_row id rows
statement _ rows = (err (plain "syntax error"), aborted)

abbrev pub lookup_row : List Arg → Rows → Result Error CardBrandRow
lookup_row (uuid id ∷ []) rows = elim (find id rows) as (λ _. Result Error CardBrandRow) [
  | none ↦ err (sentinel no_rows)
  | some row ↦ ok row
]
lookup_row _ rows = err (plain "syntax error")

abbrev pub page_of : List Arg → Rows → Rows
page_of (_ ∷ _ ∷ bigint off ∷ bigint limit ∷ []) rows = take limit (drop off rows)
page_of _ rows = []

pub find_unused : (n : ℕ) (rows : Rows) → new_id rows ≤ n → find n rows ≡ none
find_unused n [] h = refl
find_unused n (row ∷ rows) h = ground (arith, find_unused n rows)

insert_row-Sound : (name : String) (rows : Rows) → Sound (insert_row name rows).1 rows
insert_row-Sound name rows = elim (Bool-cases (ltb (count name) 101)) [
  | inr long ↦ rw long tt
  | inl fits ↦ elim (Bool-cases (has_name schema name rows)) [
    | inl taken ↦ rw (fits, taken) tt
    | inr free ↦ rw (fits, free) (find_unused (new_id rows) rows (omega arith), free)
  ]
]

change-Sound : (name : String) (id : Uuid) (rows : Rows) → Sound (change name id rows).1 rows
change-Sound name id rows = elim (Option-cases (find id rows)) [
  | inl absent ↦ rw (change, absent) tt
  | inr (old, there) ↦ elim (Bool-cases (ltb (count name) 101)) [
    | inr long ↦ rw (change, there, long) tt
    | inl fits ↦ elim (Bool-cases (has_name schema name (without id rows))) [
      | inl taken ↦ rw (change, there, fits, taken) tt
      | inr free ↦ rw (change, there, fits, free) (there, free)
    ]
  ]
]

remove_row-Sound : (id : Uuid) (rows : Rows) → Sound (remove_row id rows).1 rows
remove_row-Sound id rows = elim (Option-cases (find id rows)) [
  | inl absent ↦ rw (remove_row, absent) tt
  | inr (row, there) ↦ elim (Bool-cases (eqb id 9)) [
    | inl used ↦ rw (remove_row, there, used) tt
    | inr unused ↦
        let same = find-id id rows row there in
        rw (remove_row, there, unused)
          (
            subst (λ i. find i rows ≡ some row) (sym same) there,
            subst (λ i. eqb i 9 ≡ false) (sym same) unused,
          )
  ]
]

pub statement-Sound : (args : List Arg) (rows : Rows) → Sound (statement args rows).1 rows
statement-Sound (text (some name) ∷ []) rows = insert_row-Sound name rows
statement-Sound (text (some name) ∷ uuid id ∷ []) rows = change-Sound name id rows
statement-Sound (uuid id ∷ []) rows = remove_row-Sound id rows
statement-Sound _ rows = tt
