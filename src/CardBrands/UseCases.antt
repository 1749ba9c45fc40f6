-- ===== src/CardBrands/UseCases.antt =====
-- internal/app/usecases/card-brand
pub mod Laws
use finsplitter.Base.{String, ◌==◌, Bool, ◌||◌, List, eqb, if◌then◌else◌}
use finsplitter.Effects.{Action, fail, map_err}
use finsplitter.Errs.{Error, sentinel, plain, is, card_brand_not_found, card_brand_already_exists}
use finsplitter.Domain.{Uuid, nil_uuid, CardBrand}
use finsplitter.Domain.Context.{Ctx}
use finsplitter.Ports.{
  Transactioner, ListCardBrandFilterOptions, UpdateCardBrandOptions, CreateCardBrandRepository,
  GetCardBrandByIdRepository, ListCardBrandRepository, UpdateCardBrandRepository,
  DeleteCardBrandRepository,
}

-- each `errors.Is(err, s)` that returns the bare sentinel `s`
abbrev pub bare_exists : Error → Error
bare_exists e = if is e card_brand_already_exists then sentinel card_brand_already_exists else e

abbrev pub bare_not_found : Error → Error
bare_not_found e = if is e card_brand_not_found then sentinel card_brand_not_found else e

abbrev pub bare_update : Error → Error
bare_update e = if is e card_brand_not_found then sentinel card_brand_not_found else bare_exists e

module _ {W : Type 0} where
  unfoldable pub create_card_brand_uc :
      Transactioner W CardBrand
      → CreateCardBrandRepository W
      → Ctx
      → String
      → Action W Error CardBrand
  create_card_brand_uc tx repo ctx name =
      if name == ""
      then fail (plain "name is required")
      else tx.with_tx ctx (λ c. map_err bare_exists (repo.create_card_brand c name))

  unfoldable pub get_card_brand_by_id_uc :
      GetCardBrandByIdRepository W → Ctx → Uuid → Action W Error CardBrand
  get_card_brand_by_id_uc repo ctx id = map_err bare_not_found (repo.get_card_brand_by_id ctx id)

  unfoldable pub list_card_brands_uc :
      ListCardBrandRepository W → Ctx → ListCardBrandFilterOptions → Action W Error (List CardBrand)
  list_card_brands_uc repo ctx opts = repo.list_card_brands ctx opts

  unfoldable pub update_card_brand_uc :
      Transactioner W CardBrand
      → UpdateCardBrandRepository W
      → Ctx
      → UpdateCardBrandOptions
      → Action W Error CardBrand
  update_card_brand_uc tx repo ctx opts =
      if opts.name == "" || eqb opts.id nil_uuid
      then fail (plain "name and id are required")
      else tx.with_tx ctx (λ c. map_err bare_update (repo.update_card_brand c opts))

  unfoldable pub delete_card_brand_uc :
      Transactioner W CardBrand
      → DeleteCardBrandRepository W
      → Ctx
      → Uuid
      → Action W Error CardBrand
  delete_card_brand_uc tx repo ctx id =
      if eqb id nil_uuid
      then fail (plain "id is required")
      else tx.with_tx ctx (λ c. repo.delete_card_brand c id)
