-- ===== src/CardBrands/UseCases/Laws.antt =====
-- What the use cases answer, whatever the repository and the transactioner behind them.
use finsplitter.Base.{String, ◌≡◌, refl, arith}
use finsplitter.Effects.{err}
use finsplitter.Errs.{plain}
use finsplitter.Domain.{Uuid, nil_uuid, CardBrand}
use finsplitter.Domain.Context.{Ctx}
use finsplitter.Ports.{
  Transactioner, CreateCardBrandRepository, UpdateCardBrandRepository, DeleteCardBrandRepository,
}
use finsplitter.CardBrands.UseCases.{
  create_card_brand_uc, update_card_brand_uc, delete_card_brand_uc,
}

module _ {W : Type 0} (tx : Transactioner W CardBrand) (creates : CreateCardBrandRepository W)
    (updates : UpdateCardBrandRepository W) (deletes : DeleteCardBrandRepository W)
    (ctx : Ctx) where
  -- An empty name, or the nil UUID where an ID is needed, is refused by each of the three writing
  -- use cases before a transaction is begun: the outside world is left as it was.
  pub invalid_input_is_refused :
      (name : String) (id : Uuid) (w : W)
      → (create_card_brand_uc tx creates ctx "" w ≡ (err (plain "name is required"), w))
        × (update_card_brand_uc tx updates ctx (record { id = id; name = "" }) w
            ≡ (err (plain "name and id are required"), w))
        × (update_card_brand_uc tx updates ctx (record { id = nil_uuid; name = name }) w
            ≡ (err (plain "name and id are required"), w))
        × (delete_card_brand_uc tx deletes ctx nil_uuid w ≡ (err (plain "id is required"), w))
  unfolding create_card_brand_uc update_card_brand_uc delete_card_brand_uc
  invalid_input_is_refused name id w = (refl, refl, ground arith, refl)
