-- ===== src/Ports.antt =====
-- internal/app/ports and internal/domain/transactioner.go: the interfaces through which the use
-- cases reach the database, as records of operations on the outside world `W`.
use finsplitter.Base.{String, Bool, Option, List}
use finsplitter.Effects.{Action}
use finsplitter.Errs.{Error}
use finsplitter.Domain.{Uuid, CardBrand, User}
use finsplitter.Domain.Context.{Ctx}
use finsplitter.Domain.Pagination.{Pagination}

-- What the callback assigns to the variable that it captures is its result here.
pub record Transactioner (W A : Type 0) : Type 0 where
  pub with_tx : Ctx → (Ctx → Action W Error A) → Action W Error A

pub record UserRepository (W : Type 0) : Type 0 where
  pub create : Ctx → String → Action W Error User
  pub get_by_id : Ctx → Uuid → Action W Error User
  pub get_by_logto_user_id : Ctx → String → Action W Error User
  pub exists_by_logto_user_id : Ctx → String → Action W Error Bool

pub record ListCardBrandFilterOptions : Type 0 where
  pub pagination : Pagination
  pub open pagination use *
  pub id : Uuid
  pub name : Option String

pub record UpdateCardBrandOptions : Type 0 where
  pub id : Uuid
  pub name : String

-- A pointer to a card brand that comes with a nil error is never nil.
pub record CreateCardBrandRepository (W : Type 0) : Type 0 where
  pub create_card_brand : Ctx → String → Action W Error CardBrand

pub record GetCardBrandByIdRepository (W : Type 0) : Type 0 where
  pub get_card_brand_by_id : Ctx → Uuid → Action W Error CardBrand

pub record ListCardBrandRepository (W : Type 0) : Type 0 where
  pub list_card_brands : Ctx → ListCardBrandFilterOptions → Action W Error (List CardBrand)

pub record UpdateCardBrandRepository (W : Type 0) : Type 0 where
  pub update_card_brand : Ctx → UpdateCardBrandOptions → Action W Error CardBrand

pub record DeleteCardBrandRepository (W : Type 0) : Type 0 where
  pub delete_card_brand : Ctx → Uuid → Action W Error CardBrand
