-- ===== src/Postgres/CardBrand.antt =====
-- internal/gateways/postgres/card_brand.go (log lines are left out)
use finsplitter.Base.{String, ◌==◌, Option, none, some, List, [], ◌∷◌, eqb, if◌then◌else◌}
use finsplitter.Effects.{Action, pure, fail, catch}
use finsplitter.Errs.{
  Error, sentinel, is, as_pg, database_generic, card_brand_not_found, card_brand_already_exists,
  card_brand_foreign_key_violation, no_rows,
}
use finsplitter.Domain.{Uuid, nil_uuid, uuid_string, CardBrand}
use finsplitter.Domain.Context.{Ctx}
use finsplitter.Domain.Pagination.{offset}
use finsplitter.Ports.{
  ListCardBrandFilterOptions, UpdateCardBrandOptions, CreateCardBrandRepository,
  GetCardBrandByIdRepository, ListCardBrandRepository, UpdateCardBrandRepository,
  DeleteCardBrandRepository,
}
use finsplitter.Postgres.Driver.{Database, CardBrandRow}
use finsplitter.Postgres.Sqlc
use finsplitter.Postgres.Sqlc.{ListCardBrandsParams}

unfoldable pub parse_to_card_brand : CardBrandRow → CardBrand
parse_to_card_brand brand = record {
  id = brand.id;
  name = brand.name;
  created_date = brand.created_date.time;
  last_modified_date = brand.last_modified_date.time;
}

-- the loop that fills `cardBrandList`
unfoldable pub parse_all : List CardBrandRow → List CardBrand
parse_all [] = []
parse_all (brand ∷ brands) = parse_to_card_brand brand ∷ parse_all brands

-- the parameters of the list query
unfoldable pub list_params : ListCardBrandFilterOptions → ListCardBrandsParams
list_params opts = record {
  id = if eqb opts.id nil_uuid then none else some (uuid_string opts.id);
  name = opts.name;
  page_offset = offset opts.pagination;
  page_size = opts.page_size;
}

abbrev or_not_found : Error → Error
or_not_found e = if is e no_rows then sentinel card_brand_not_found else e

module _ {W : Type 0} (db : Database W) where
  -- `errors.As(err, &pgErr) && pgerrcode.IsIntegrityConstraintViolation(pgErr.Code)`
  abbrev pub integrity_code : Error → Option String
  integrity_code e = elim (as_pg e) [
    | none ↦ none
    | some code ↦ if db.is_integrity_constraint_violation code then some code else none
  ]

  -- the switch of CreateCardBrand and of UpdateCardBrand
  abbrev write_error : String → Error
  write_error code =
      if code == db.unique_violation
      then sentinel card_brand_already_exists
      else if code == db.foreign_key_violation
      then sentinel card_brand_foreign_key_violation
      else sentinel database_generic

  -- the switch of DeleteCardBrand
  abbrev delete_switch : String → Error
  delete_switch code =
      if code == db.foreign_key_violation
      then sentinel card_brand_foreign_key_violation
      else sentinel database_generic

  unfoldable pub create_error : Error → Error
  create_error e = elim (integrity_code e) [ none ↦ e | some code ↦ write_error code ]

  unfoldable pub update_error : Error → Error
  update_error e = elim (integrity_code e) [ none ↦ or_not_found e | some code ↦ write_error code ]

  unfoldable pub delete_error : Error → Error
  delete_error e = elim (integrity_code e) [
    | none ↦ or_not_found e
    | some code ↦ delete_switch code
  ]

  unfoldable pub create_card_brand : Ctx → String → Action W Error CardBrand
  unfolding Sqlc.create_card_brand parse_to_card_brand create_error
  create_card_brand ctx name =
      catch (Sqlc.create_card_brand db ctx name) (λ brand. pure (parse_to_card_brand brand))
        (λ e. fail (create_error e))

  unfoldable pub get_card_brand_by_id : Ctx → Uuid → Action W Error CardBrand
  unfolding Sqlc.get_card_brand parse_to_card_brand
  get_card_brand_by_id ctx id =
      catch (Sqlc.get_card_brand db ctx id) (λ brand. pure (parse_to_card_brand brand))
        (λ e. fail (or_not_found e))

  unfoldable pub list_card_brands :
      Ctx → ListCardBrandFilterOptions → Action W Error (List CardBrand)
  unfolding Sqlc.list_card_brands parse_all list_params
  list_card_brands ctx opts =
      catch (Sqlc.list_card_brands db ctx (list_params opts)) (λ brands. pure (parse_all brands))
        fail

  unfoldable pub update_card_brand : Ctx → UpdateCardBrandOptions → Action W Error CardBrand
  unfolding Sqlc.update_card_brand parse_to_card_brand update_error
  update_card_brand ctx opts =
      catch (Sqlc.update_card_brand db ctx opts.name opts.id)
        (λ brand. pure (parse_to_card_brand brand)) (λ e. fail (update_error e))

  unfoldable pub delete_card_brand : Ctx → Uuid → Action W Error CardBrand
  unfolding Sqlc.delete_card_brand parse_to_card_brand delete_error
  delete_card_brand ctx id =
      catch (Sqlc.delete_card_brand db ctx id) (λ brand. pure (parse_to_card_brand brand))
        (λ e. fail (delete_error e))

  -- *CardBrandRepository as each of the ports
  abbrev pub create_repo : CreateCardBrandRepository W
  create_repo = record { create_card_brand = create_card_brand }

  abbrev pub get_repo : GetCardBrandByIdRepository W
  get_repo = record { get_card_brand_by_id = get_card_brand_by_id }

  abbrev pub list_repo : ListCardBrandRepository W
  list_repo = record { list_card_brands = list_card_brands }

  abbrev pub update_repo : UpdateCardBrandRepository W
  update_repo = record { update_card_brand = update_card_brand }

  abbrev pub delete_repo : DeleteCardBrandRepository W
  delete_repo = record { delete_card_brand = delete_card_brand }
