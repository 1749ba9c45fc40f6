-- ===== src/CardBrands/Refinement/Calls.antt =====
-- A request whose transaction goes well.
use finsplitter.Base.{ℕ, String, ◌≡◌, ◌≢◌, true, false, some, [], ◌∷◌, arith, eq_iff}
use finsplitter.Effects.{ok}
use finsplitter.Domain.{Uuid, nil_uuid}
use finsplitter.Domain.Context.{Ctx, has_tx, with_tx_value}
use finsplitter.Postgres.Driver.{Database, CardBrandRow, Arg}
use finsplitter.Postgres.Tx.{with_tx, querier}
use finsplitter.Postgres.Sqlc
use finsplitter.Postgres.CardBrand as Repo
use finsplitter.Postgres.CardBrand.{parse_to_card_brand}
use finsplitter.CardBrands.Handlers.{
  UpdateCardBrandRequest, post_card_brand, patch_card_brand, delete_card_brand,
}

module _ {W : Type 0} (db : Database W) (ctx : Ctx) (no_outer : has_tx ctx ≡ false) {tx : ℕ}
    {row : CardBrandRow} {w v u w' : W} (begins : db.begin w ≡ (ok tx, v))
    (commits : db.commit tx u ≡ (ok tt, w')) where
  pub post_succeeds :
      (name : String)
      → name ≢ ""
      → db.query_card_brand (some tx) Sqlc.create_card_brand_sql (Arg.text (some name) ∷ []) v
        ≡ (ok row, u)
      → post_card_brand db ctx name w ≡ (ok (parse_to_card_brand row), w')
  unfolding post_card_brand with_tx Repo.create_card_brand with_tx_value querier
  post_succeeds name named runs = ground (arith, eq_iff name "")

  pub patch_succeeds :
      (input : UpdateCardBrandRequest)
      → input.name ≢ ""
      → input.id ≢ nil_uuid
      → db.query_card_brand
          (some tx)
          Sqlc.update_card_brand_sql
          (Arg.text (some input.name) ∷ Arg.uuid input.id ∷ [])
          v
        ≡ (ok row, u)
      → patch_card_brand db ctx input w ≡ (ok (parse_to_card_brand row), w')
  unfolding patch_card_brand with_tx Repo.update_card_brand with_tx_value querier
  patch_succeeds input named some_id runs = ground (arith, eq_iff input.name "")

  pub delete_succeeds :
      (id : Uuid)
      → id ≢ nil_uuid
      → db.query_card_brand (some tx) Sqlc.delete_card_brand_sql (Arg.uuid id ∷ []) v ≡ (ok row, u)
      → delete_card_brand db ctx id w ≡ (ok true, w')
  unfolding delete_card_brand with_tx Repo.delete_card_brand with_tx_value querier
  delete_succeeds id some_id runs = ground arith
