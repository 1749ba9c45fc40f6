-- ===== src/CardBrands/Spec.antt =====
-- What the card brand API promises: the response to each request, and what becomes of the table.
-- Nothing here mentions transactions, statements or error values.
pub mod Invariant
pub mod Observed
pub use finsplitter.Traces.{stop, step}
use finsplitter.Traces as Sequences
use finsplitter.Base.{
  String, ◌≡◌, ◌≢◌, ◌⊎◌, true, false, none, some, List, [], ◌∷◌, if◌then◌else◌, eqb, take, drop,
}
use finsplitter.Effects.{Result, ok, err}
use finsplitter.Domain.{Uuid, nil_uuid, uuid_string}
use finsplitter.Domain.Pagination.{offset}
use finsplitter.Http.{HttpError, http_error}
use finsplitter.Postgres.Driver.{CardBrandRow}
use finsplitter.Postgres.CardBrand.{parse_to_card_brand, parse_all}
use finsplitter.Postgres.Table.{Schema, Rows, find, without, has_name}
use finsplitter.CardBrands.Handlers.{
  ListCardBrandsRequest, UpdateCardBrandRequest, filter_of, list_body,
}
use finsplitter.CardBrands.Routes.{
  CardBrandRequest, CardBrandBody, list, create, get, update, delete, brands, brand, gone,
}

abbrev pub Reply : Type 0
Reply = Result HttpError CardBrandBody

abbrev pub not_found_reply : Reply
not_found_reply = err (http_error 404 "CardBrand not found")

abbrev pub conflict_reply : Reply
conflict_reply = err (http_error 409 "card brand already exists")

module _ (s : Schema) where
  -- the rows of a page
  abbrev pub listed : ListCardBrandsRequest → Rows → Rows
  listed input rows =
      let id = if eqb input.id nil_uuid then none else some (uuid_string input.id) in
      take input.page_size
        (drop (offset (filter_of input).pagination) (s.select rows id (some input.name)))

  -- One request on the table `rows`: the request, the response and the table afterwards. A name
  -- that the column does not accept is answered by a 500 with the database's text, and so is a
  -- statement that the database has cancelled.
  pub data Step (rows : Rows) : CardBrandRequest → Reply → Rows → Type 0 where
    lists :
        (input : ListCardBrandsRequest)
        → Step rows (list input) (ok (brands (list_body (parse_all (listed input rows))))) rows
    gets :
        (id : Uuid) (row : CardBrandRow)
        → find id rows ≡ some row
        → Step rows (get id) (ok (brand (parse_to_card_brand row))) rows
    gets_none : (id : Uuid) → find id rows ≡ none → Step rows (get id) not_found_reply rows
    creates :
        (name : String) (row : CardBrandRow)
        → name ≢ ""
        → s.accepts name ≡ true
        → has_name s name rows ≡ false
        → find row.id rows ≡ none
        → row.name ≡ name
        → Step rows (create name) (ok (brand (parse_to_card_brand row))) (row ∷ rows)
    creates_taken :
        (name : String)
        → name ≢ ""
        → has_name s name rows ≡ true
        → Step rows (create name) conflict_reply rows
    creates_unnamed : Step rows (create "") (err (http_error 500 "name is required")) rows
    creates_rejected :
        (name t : String)
        → name ≢ ""
        → s.accepts name ≡ false
        → Step rows (create name) (err (http_error 500 t)) rows
    creates_cancelled :
        (name t : String)
        → name ≢ ""
        → s.cancels ≡ true
        → Step rows (create name) (err (http_error 500 t)) rows
    updates :
        (input : UpdateCardBrandRequest) (old row : CardBrandRow)
        → input.name ≢ ""
        → input.id ≢ nil_uuid
        → s.accepts input.name ≡ true
        → find input.id rows ≡ some old
        → has_name s input.name (without input.id rows) ≡ false
        → row.id ≡ input.id
        → row.name ≡ input.name
        → row.created_date ≡ old.created_date
        → Step rows
            (update input)
            (ok (brand (parse_to_card_brand row)))
            (row ∷ without input.id rows)
    updates_none :
        (input : UpdateCardBrandRequest)
        → input.name ≢ ""
        → input.id ≢ nil_uuid
        → find input.id rows ≡ none
        → Step rows (update input) not_found_reply rows
    updates_taken :
        (input : UpdateCardBrandRequest) (old : CardBrandRow)
        → input.name ≢ ""
        → input.id ≢ nil_uuid
        → find input.id rows ≡ some old
        → has_name s input.name (without input.id rows) ≡ true
        → Step rows (update input) conflict_reply rows
    updates_invalid :
        (input : UpdateCardBrandRequest)
        → (input.name ≡ "") ⊎ (input.id ≡ nil_uuid)
        → Step rows (update input) (err (http_error 500 "name and id are required")) rows
    updates_rejected :
        (input : UpdateCardBrandRequest) (t : String)
        → input.name ≢ ""
        → input.id ≢ nil_uuid
        → s.accepts input.name ≡ false
        → Step rows (update input) (err (http_error 500 t)) rows
    updates_cancelled :
        (input : UpdateCardBrandRequest) (t : String)
        → input.name ≢ ""
        → input.id ≢ nil_uuid
        → s.cancels ≡ true
        → Step rows (update input) (err (http_error 500 t)) rows
    deletes :
        (id : Uuid) (row : CardBrandRow)
        → id ≢ nil_uuid
        → find id rows ≡ some row
        → s.in_use id ≡ false
        → Step rows (delete id) (ok (gone true)) (without id rows)
    deletes_none :
        (id : Uuid)
        → id ≢ nil_uuid
        → find id rows ≡ none
        → Step rows (delete id) not_found_reply rows
    deletes_in_use :
        (id : Uuid) (row : CardBrandRow)
        → id ≢ nil_uuid
        → find id rows ≡ some row
        → s.in_use id ≡ true
        → Step rows (delete id) (err (http_error 500 "card brand foreign key violation")) rows
    deletes_cancelled :
        (id : Uuid) (t : String)
        → id ≢ nil_uuid
        → s.cancels ≡ true
        → Step rows (delete id) (err (http_error 500 t)) rows
    deletes_nil : Step rows (delete nil_uuid) (err (http_error 500 "id is required")) rows

  -- A sequence of requests with their responses, from one table to another.
  abbrev pub Trace : Rows → List (CardBrandRequest × Reply) → Rows → Type 0
  Trace = Sequences.Trace Step
