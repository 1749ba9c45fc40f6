-- ===== src/Postgres/Sqlc.antt =====
-- internal/gateways/postgres/sqlc: the generated queries. Each runs its statement on the
-- transaction of the context, or on the pool, and scans the rows into records.
use finsplitter.Base.{ℕ, String, Bool, Option, some, List, [], ◌∷◌}
use finsplitter.Effects.{Action}
use finsplitter.Errs.{Error}
use finsplitter.Domain.{Uuid}
use finsplitter.Domain.Context.{Ctx}
use finsplitter.Postgres.Driver.{Database, CardBrandRow, UserRow, text, uuid, bigint}
use finsplitter.Postgres.Tx.{querier}

abbrev pub create_card_brand_sql : String
create_card_brand_sql =
    "-- name: CreateCardBrand :one\nINSERT INTO card_brand (\n  name\n) VALUES (\n  $1\n)\nRETURNING id, name, created_date, last_modified_date\n"

abbrev pub delete_card_brand_sql : String
delete_card_brand_sql =
    "-- name: DeleteCardBrand :one\nDELETE FROM card_brand\nWHERE id = $1\nRETURNING id, name, created_date, last_modified_date\n"

abbrev pub get_card_brand_sql : String
get_card_brand_sql =
    "-- name: GetCardBrand :one\nSELECT id, name, created_date, last_modified_date FROM card_brand\nWHERE id = $1 LIMIT 1\n"

abbrev pub list_card_brands_sql : String
list_card_brands_sql =
    "-- name: ListCardBrands :many\nSELECT id, name, created_date, last_modified_date\nFROM card_brand cb\nWHERE\n  ($1::text IS NULL OR cb.id = $1::uuid)\n  AND\n  ($2::text IS NULL OR $2::text = '' OR cb.name ILIKE '%' || $2::text || '%')\nORDER BY name\nLIMIT $4::bigint OFFSET $3::bigint\n"

abbrev pub update_card_brand_sql : String
update_card_brand_sql =
    "-- name: UpdateCardBrand :one\nUPDATE card_brand\nSET name = $1\nWHERE id = $2\nRETURNING id, name, created_date, last_modified_date\n"

abbrev pub create_user_sql : String
create_user_sql =
    "-- name: CreateUser :one\nINSERT INTO \"user\" (\n    logto_user_id, created_date, last_modified_date\n) VALUES (\n    $1, NOW(), NOW()\n)\nRETURNING id, logto_user_id, created_date, last_modified_date\n"

abbrev pub exists_by_logto_user_id_sql : String
exists_by_logto_user_id_sql =
    "-- name: ExistsByLogtoUserID :one\nSELECT EXISTS(SELECT 1 FROM \"user\" WHERE logto_user_id = $1)\n"

abbrev pub get_user_by_id_sql : String
get_user_by_id_sql =
    "-- name: GetUserByID :one\nSELECT id, logto_user_id, created_date, last_modified_date\nFROM \"user\"\nWHERE id = $1\n"

abbrev pub get_user_by_logto_user_id_sql : String
get_user_by_logto_user_id_sql =
    "-- name: GetUserByLogtoUserID :one\nSELECT id, logto_user_id, created_date, last_modified_date\nFROM \"user\"\nWHERE logto_user_id = $1\n"

pub record ListCardBrandsParams : Type 0 where
  pub id : Option String
  pub name : Option String
  pub page_offset : ℕ
  pub page_size : ℕ

module _ {W : Type 0} (db : Database W) (ctx : Ctx) where
  unfoldable pub create_card_brand : String → Action W Error CardBrandRow
  unfolding querier
  create_card_brand name =
      db.query_card_brand (querier ctx) create_card_brand_sql (text (some name) ∷ [])

  unfoldable pub delete_card_brand : Uuid → Action W Error CardBrandRow
  unfolding querier
  delete_card_brand id = db.query_card_brand (querier ctx) delete_card_brand_sql (uuid id ∷ [])

  unfoldable pub get_card_brand : Uuid → Action W Error CardBrandRow
  unfolding querier
  get_card_brand id = db.query_card_brand (querier ctx) get_card_brand_sql (uuid id ∷ [])

  unfoldable pub list_card_brands : ListCardBrandsParams → Action W Error (List CardBrandRow)
  unfolding querier
  list_card_brands arg =
      db.query_card_brands (querier ctx) list_card_brands_sql
        (text arg.id ∷ text arg.name ∷ bigint arg.page_offset ∷ bigint arg.page_size ∷ [])

  unfoldable pub update_card_brand : String → Uuid → Action W Error CardBrandRow
  unfolding querier
  update_card_brand name id =
      db.query_card_brand (querier ctx) update_card_brand_sql (text (some name) ∷ uuid id ∷ [])

  unfoldable pub create_user : Option String → Action W Error UserRow
  unfolding querier
  create_user logto_user_id = db.query_user (querier ctx) create_user_sql (text logto_user_id ∷ [])

  unfoldable pub exists_by_logto_user_id : Option String → Action W Error Bool
  unfolding querier
  exists_by_logto_user_id logto_user_id =
      db.query_bool (querier ctx) exists_by_logto_user_id_sql (text logto_user_id ∷ [])

  unfoldable pub get_user_by_id : Uuid → Action W Error UserRow
  unfolding querier
  get_user_by_id id = db.query_user (querier ctx) get_user_by_id_sql (uuid id ∷ [])

  unfoldable pub get_user_by_logto_user_id : Option String → Action W Error UserRow
  unfolding querier
  get_user_by_logto_user_id logto_user_id =
      db.query_user (querier ctx) get_user_by_logto_user_id_sql (text logto_user_id ∷ [])
