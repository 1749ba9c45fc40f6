-- ===== src/CardBrands/Handlers.antt =====
-- internal/gateways/http/v1/card-brand: the handlers, each over the use case that it is given, and
-- their composition with the use cases and the PostgreSQL repository (newCardBrandAPI in
-- cmd/api/main.go). The requests have passed the schema validation of the HTTP framework.
pub mod Statuses
pub mod Atomic
pub mod Stored
pub mod Pages
use finsplitter.Base.{ℕ, String, Bool, true, some, List, length, if◌then◌else◌}
use finsplitter.Effects.{Action, pure, fail, catch}
use finsplitter.Errs.{Error, is, message, card_brand_not_found, card_brand_already_exists}
use finsplitter.Domain.{Uuid, CardBrand}
use finsplitter.Domain.Context.{Ctx}
use finsplitter.Ports.{ListCardBrandFilterOptions, UpdateCardBrandOptions}
use finsplitter.Http.{HttpError, http_error}
use finsplitter.Postgres.Driver.{Database}
use finsplitter.Postgres.Tx.{tx_manager}
use finsplitter.Postgres.CardBrand.{create_repo, get_repo, list_repo, update_repo, delete_repo}
use finsplitter.CardBrands.UseCases.{
  create_card_brand_uc, get_card_brand_by_id_uc, list_card_brands_uc, update_card_brand_uc,
  delete_card_brand_uc,
}

pub record ListCardBrandsRequest : Type 0 where
  pub id : Uuid
  pub name : String
  pub page_size : ℕ
  pub page_number : ℕ

pub record ListCardBrandsBody : Type 0 where
  pub card_brands : List CardBrand
  pub total_count : ℕ

pub record UpdateCardBrandRequest : Type 0 where
  pub id : Uuid
  pub name : String

-- how the handlers turn an error into a response
unfoldable pub create_reply : Error → HttpError
create_reply e =
    if is e card_brand_already_exists
    then http_error 409 (message e)
    else http_error 500 (message e)

unfoldable pub find_reply : Error → HttpError
find_reply e =
    if is e card_brand_not_found
    then http_error 404 "CardBrand not found"
    else http_error 500 (message e)

unfoldable pub update_reply : Error → HttpError
update_reply e =
    if is e card_brand_not_found
    then http_error 404 "CardBrand not found"
    else if is e card_brand_already_exists
    then http_error 409 (message e)
    else http_error 500 (message e)

-- `Name` is always a pointer to a string, an empty one where the query has no name.
abbrev pub filter_of : ListCardBrandsRequest → ListCardBrandFilterOptions
filter_of input = record {
  pagination = record { page_size = input.page_size; page_number = input.page_number };
  id = input.id;
  name = some input.name;
}

abbrev pub list_body : List CardBrand → ListCardBrandsBody
list_body brands = record { card_brands = brands; total_count = length brands }

module _ {W : Type 0} where
  unfoldable pub create_handler :
      (Ctx → String → Action W Error CardBrand) → Ctx → String → Action W HttpError CardBrand
  unfolding create_reply
  create_handler use_case ctx name = catch (use_case ctx name) pure (λ e. fail (create_reply e))

  unfoldable pub get_handler :
      (Ctx → Uuid → Action W Error CardBrand) → Ctx → Uuid → Action W HttpError CardBrand
  unfolding find_reply
  get_handler use_case ctx id = catch (use_case ctx id) pure (λ e. fail (find_reply e))

  unfoldable pub list_handler :
      (Ctx → ListCardBrandFilterOptions → Action W Error (List CardBrand))
      → Ctx
      → ListCardBrandsRequest
      → Action W HttpError ListCardBrandsBody
  list_handler use_case ctx input =
      catch (use_case ctx (filter_of input)) (λ brands. pure (list_body brands))
        (λ e. fail (http_error 500 (message e)))

  unfoldable pub update_handler :
      (Ctx → UpdateCardBrandOptions → Action W Error CardBrand)
      → Ctx
      → UpdateCardBrandRequest
      → Action W HttpError CardBrand
  unfolding update_reply
  update_handler use_case ctx input =
      catch (use_case ctx (record { id = input.id; name = input.name })) pure
        (λ e. fail (update_reply e))

  -- The body is `cb != nil`, and a card brand that comes with a nil error is not nil.
  unfoldable pub delete_handler :
      (Ctx → Uuid → Action W Error CardBrand) → Ctx → Uuid → Action W HttpError Bool
  unfolding find_reply
  delete_handler use_case ctx id =
      catch (use_case ctx id) (λ _. pure true) (λ e. fail (find_reply e))

module _ {W : Type 0} (db : Database W) where
  unfoldable pub post_card_brand : Ctx → String → Action W HttpError CardBrand
  unfolding create_handler create_card_brand_uc
  post_card_brand = create_handler (create_card_brand_uc (tx_manager db) (create_repo db))

  unfoldable pub get_card_brand : Ctx → Uuid → Action W HttpError CardBrand
  unfolding get_handler get_card_brand_by_id_uc
  get_card_brand = get_handler (get_card_brand_by_id_uc (get_repo db))

  unfoldable pub get_card_brands :
      Ctx → ListCardBrandsRequest → Action W HttpError ListCardBrandsBody
  unfolding list_handler list_card_brands_uc
  get_card_brands = list_handler (list_card_brands_uc (list_repo db))

  unfoldable pub patch_card_brand : Ctx → UpdateCardBrandRequest → Action W HttpError CardBrand
  unfolding update_handler update_card_brand_uc
  patch_card_brand = update_handler (update_card_brand_uc (tx_manager db) (update_repo db))

  unfoldable pub delete_card_brand : Ctx → Uuid → Action W HttpError Bool
  unfolding delete_handler delete_card_brand_uc
  delete_card_brand = delete_handler (delete_card_brand_uc (tx_manager db) (delete_repo db))
