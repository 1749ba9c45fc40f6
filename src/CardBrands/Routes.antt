-- ===== src/CardBrands/Routes.antt =====
-- internal/gateways/http/v1/card-brand/routes.go: the requests of the card brands, each with the
-- handler that RegisterRoutes registers for it.
pub mod Atomic
pub mod Stored
use finsplitter.Base.{ℕ, String, ◌+++◌, Bool, List, [], ◌∷◌}
use finsplitter.Effects.{Action, pure, ◌>>=◌}
use finsplitter.Domain.{Uuid, uuid_string, CardBrand}
use finsplitter.Domain.Context.{Ctx}
use finsplitter.Http.{HttpError, Operation}
use finsplitter.Postgres.Driver.{Database}
use finsplitter.CardBrands.Handlers.{
  ListCardBrandsRequest, ListCardBrandsBody, UpdateCardBrandRequest, post_card_brand,
  get_card_brand, get_card_brands, patch_card_brand, delete_card_brand,
}

-- The requests that the framework has decoded
pub data CardBrandRequest : Type 0 where
  list : ListCardBrandsRequest → CardBrandRequest
  create : String → CardBrandRequest
  get : Uuid → CardBrandRequest
  update : UpdateCardBrandRequest → CardBrandRequest
  delete : Uuid → CardBrandRequest

-- and the bodies of their responses.
pub data CardBrandBody : Type 0 where
  brands : ListCardBrandsBody → CardBrandBody
  brand : CardBrand → CardBrandBody
  gone : Bool → CardBrandBody

abbrev operation_on : String → String → List ℕ → Operation
operation_on method path errors = record {
  method = method;
  path = path;
  security = ("bearerAuth" ∷ []) ∷ [];
  errors = errors;
}

abbrev path_by_id : Uuid → String
path_by_id id = "/card-brands" +++ ("/" +++ uuid_string id)

-- What RegisterRoutes declares for the request
unfoldable pub card_brand_operation : CardBrandRequest → Operation
card_brand_operation (list _) = operation_on "GET" "/card-brands" (401 ∷ 500 ∷ [])
card_brand_operation (create _) = operation_on "POST" "/card-brands" (400 ∷ 409 ∷ 500 ∷ [])
card_brand_operation (get id) = operation_on "GET" (path_by_id id) (404 ∷ 500 ∷ [])
card_brand_operation (update input) =
    operation_on "PATCH" (path_by_id input.id) (400 ∷ 404 ∷ 500 ∷ [])
card_brand_operation (delete id) = operation_on "DELETE" (path_by_id id) (404 ∷ 500 ∷ [])

-- and the handler that it registers.
module _ {W : Type 0} (db : Database W) (ctx : Ctx) where
  unfoldable pub serve : CardBrandRequest → Action W HttpError CardBrandBody
  unfolding get_card_brands post_card_brand get_card_brand patch_card_brand delete_card_brand
  serve (list input) = get_card_brands db ctx input >>= λ b. pure (brands b)
  serve (create name) = post_card_brand db ctx name >>= λ b. pure (brand b)
  serve (get id) = get_card_brand db ctx id >>= λ b. pure (brand b)
  serve (update input) = patch_card_brand db ctx input >>= λ b. pure (brand b)
  serve (delete id) = delete_card_brand db ctx id >>= λ b. pure (gone b)
