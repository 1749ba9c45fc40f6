-- ===== src/CardBrands/Routes/Stored.antt =====
-- The writing requests, whichever it is, and the row behind a success.
use finsplitter.Base.{String, ◌≡◌, true, some, List, [], ◌∷◌, arith}
use finsplitter.Effects.{ok}
use finsplitter.Effects.Laws.{>>=-eq-ok}
use finsplitter.Domain.Context.{Ctx}
use finsplitter.Postgres.Driver.{Database, Arg, CardBrandRow}
use finsplitter.Postgres.Sqlc
use finsplitter.Postgres.CardBrand.{parse_to_card_brand}
use finsplitter.CardBrands.Handlers.{post_card_brand, patch_card_brand, delete_card_brand}
use finsplitter.CardBrands.Handlers.Stored.{
  IsStored, post_card_brand-IsStored, patch_card_brand-IsStored, delete_card_brand-IsStored,
}
use finsplitter.CardBrands.Routes.{
  CardBrandRequest, list, create, get, update, delete, CardBrandBody, brand, gone, serve,
}
use finsplitter.CardBrands.Routes.Atomic.{IsWrite}

-- The statement of a writing request, its arguments, and the body that tells of the row
abbrev pub statement : CardBrandRequest → String
statement (create _) = Sqlc.create_card_brand_sql
statement (update _) = Sqlc.update_card_brand_sql
statement (delete _) = Sqlc.delete_card_brand_sql
statement _ = ""

abbrev pub arguments : CardBrandRequest → List Arg
arguments (create name) = Arg.text (some name) ∷ []
arguments (update input) = Arg.text (some input.name) ∷ Arg.uuid input.id ∷ []
arguments (delete id) = Arg.uuid id ∷ []
arguments _ = []

abbrev pub body_of : CardBrandRequest → CardBrandRow → CardBrandBody
body_of (delete _) row = gone true
body_of _ row = brand (parse_to_card_brand row)

module _ {W : Type 0} (db : Database W) (ctx : Ctx) where
  -- POST, PATCH and DELETE: a success response tells of the row that the request's INSERT, UPDATE or
  -- DELETE returned, the one statement of a transaction of its own, and this transaction has been
  -- committed at the end.
  pub serve-IsStored :
      (request : CardBrandRequest) (w w' : W) (b : CardBrandBody)
      → IsWrite request
      → serve db ctx request w ≡ (ok b, w')
      → (row : CardBrandRow) × IsStored db ctx (statement request) (arguments request) w row w'
        × (b ≡ body_of request row)
  unfolding serve
  serve-IsStored (list _) w w' b h _ = absurd h
  serve-IsStored (get _) w w' b h _ = absurd h
  serve-IsStored (create name) w w' b _ h =
      let (brand', v, ran, after) =
        >>=-eq-ok (post_card_brand db ctx name) (λ x u. (ok (brand x), u)) w h in
      let (row, stored, same) = post_card_brand-IsStored db ctx name w v brand' ran in
      let end : v ≡ w' = ground arith in (row, rw (← end) stored, ground (arith, same))
  serve-IsStored (update input) w w' b _ h =
      let (brand', v, ran, after) =
        >>=-eq-ok (patch_card_brand db ctx input) (λ x u. (ok (brand x), u)) w h in
      let (row, stored, same) = patch_card_brand-IsStored db ctx input w v brand' ran in
      let end : v ≡ w' = ground arith in (row, rw (← end) stored, ground (arith, same))
  serve-IsStored (delete id) w w' b _ h =
      let (deleted, v, ran, after) =
        >>=-eq-ok (delete_card_brand db ctx id) (λ x u. (ok (gone x), u)) w h in
      let (row, stored, same) = delete_card_brand-IsStored db ctx id w v deleted ran in
      let end : v ≡ w' = ground arith in (row, rw (← end) stored, ground (arith, same))
