-- ===== src/CardBrands/Routes/Atomic.antt =====
-- The writing requests, whichever it is, and the committed data.
use finsplitter.Effects.{Result, ok, err, panic, catch, pure, fail}
use finsplitter.Domain.Context.{Ctx}
use finsplitter.Http.{HttpError}
use finsplitter.Postgres.Driver.{Database, IsTransactional}
use finsplitter.CardBrands.Handlers.Atomic.{
  IsUnchanged, post_card_brand-IsUnchanged, patch_card_brand-IsUnchanged,
  delete_card_brand-IsUnchanged,
}
use finsplitter.CardBrands.Routes.{
  CardBrandRequest, list, create, get, update, delete, brand, gone, serve,
}

-- POST, PATCH and DELETE
abbrev pub IsWrite : CardBrandRequest → Type 0
IsWrite (list _) = ⊥
IsWrite (get _) = ⊥
IsWrite _ = Unit {0}

module _ {W T : Type 0} (db : Database W) (committed : W → T) where
  mapped-IsUnchanged :
      {A B : Type 0} (g : A → B) (w : W) (x : Result HttpError A × W)
      → IsUnchanged db committed w x
      → IsUnchanged db committed w (catch (λ (_ : W). x) (λ a. pure (g a)) fail w)
  mapped-IsUnchanged g w (ok a, v) h = tt
  mapped-IsUnchanged g w (err e, v) h = h
  mapped-IsUnchanged g w (panic p, v) h = h

  module _ (t : IsTransactional db committed) (ctx : Ctx) where
    -- POST, PATCH and DELETE on a database whose open transactions are isolated: unless the response
    -- is a success, the committed data are as before, or Commit was called and did not succeed;
    -- if it panicked, the last call was Rollback.
    pub serve-IsUnchanged :
        (request : CardBrandRequest) (w : W)
        → IsWrite request
        → IsUnchanged db committed w (serve db ctx request w)
    unfolding serve
    serve-IsUnchanged (list _) w h = absurd h
    serve-IsUnchanged (get _) w h = absurd h
    serve-IsUnchanged (create name) w _ =
        mapped-IsUnchanged brand w _ (post_card_brand-IsUnchanged db committed t ctx name w)
    serve-IsUnchanged (update input) w _ =
        mapped-IsUnchanged brand w _ (patch_card_brand-IsUnchanged db committed t ctx input w)
    serve-IsUnchanged (delete id) w _ =
        mapped-IsUnchanged gone w _ (delete_card_brand-IsUnchanged db committed t ctx id w)
