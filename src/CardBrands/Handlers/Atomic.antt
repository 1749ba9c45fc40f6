-- ===== src/CardBrands/Handlers/Atomic.antt =====
-- What a writing request does to the committed data.
use finsplitter.Base.{
  ℕ, String, ◌==◌, ◌≡◌, refl, ◌⊎◌, ◌||◌, true, some, [], ◌∷◌, eqb, arith, Bool-cases, inl, inr,
}
use finsplitter.Effects.{Result, ok, err, panic, catch, pure, fail}
use finsplitter.Errs.{Error}
use finsplitter.Domain.{Uuid, nil_uuid}
use finsplitter.Domain.Context.{Ctx, with_tx_value}
use finsplitter.Http.{HttpError}
use finsplitter.Postgres.Driver.{Database, IsTransactional, Arg}
use finsplitter.Postgres.Tx.{querier}
use finsplitter.Postgres.Tx.Laws.{IsAtomic, with_tx-IsAtomic}
use finsplitter.Postgres.Sqlc
use finsplitter.Postgres.CardBrand as Repo
use finsplitter.Postgres.CardBrand.{parse_to_card_brand}
use finsplitter.CardBrands.Handlers.{
  UpdateCardBrandRequest, post_card_brand, patch_card_brand, delete_card_brand, create_reply,
  find_reply, update_reply,
}

module _ {W T : Type 0} (db : Database W) (committed : W → T) where
  -- After a response other than a success the committed data are as before, unless Commit itself
  -- was called and reported a failure (after which the outcome is the server's to tell); after a
  -- panic of Commit, Rollback is called.
  abbrev pub IsUnchanged : {A : Type 0} → W → Result HttpError A × W → Type 0
  IsUnchanged w (ok _, w') = Unit {0}
  IsUnchanged w (err _, w') =
      (committed w' ≡ committed w)
      ⊎ ((tx : ℕ) × (v : W) × (c : Error) × (db.commit tx v ≡ (err c, w')))
  IsUnchanged w (panic _, w') =
      (committed w' ≡ committed w)
      ⊎ ((tx : ℕ) × (v : W) × (q : String) × (v' : W) × (db.commit tx v ≡ (panic q, v'))
          × ((db.rollback tx v').1 ≡ w'))

  ended-IsUnchanged :
      {A B : Type 0} (reply : Error → HttpError) (g : A → B) (w : W) (x : Result Error A × W)
      → IsAtomic db committed w x
      → IsUnchanged w (catch (λ (_ : W). x) (λ a. pure (g a)) (λ e. fail (reply e)) w)
  ended-IsUnchanged reply g w (ok a, w') h = tt
  ended-IsUnchanged reply g w (err e, w') (inl h) = inl h
  ended-IsUnchanged reply g w (err e, w') (inr (tx, v, c, p, _)) = inr (tx, v, c, p)
  ended-IsUnchanged reply g w (panic p, w') h = h

  module _ (t : IsTransactional db committed) (ctx : Ctx) where
    -- POST /card-brands, on a database whose open transactions are isolated: unless the response is
    -- a success, the committed data are as before, or Commit was called and did not succeed.
    pub post_card_brand-IsUnchanged :
        (name : String) (w : W) → IsUnchanged w (post_card_brand db ctx name w)
    unfolding post_card_brand create_reply Repo.create_card_brand with_tx_value querier
    post_card_brand-IsUnchanged name w = elim (Bool-cases (name == "")) [
      | inl empty ↦ rw empty (inl refl)
      | inr named ↦ rw named (
          ended-IsUnchanged create_reply (λ b. b) w _
            (with_tx-IsAtomic db committed t ctx _
              (λ tx v. ground (
                arith,
                t.card_brand_keeps tx Sqlc.create_card_brand_sql (Arg.text (some name) ∷ []) v,
              ))
              w))
    ]

    -- PATCH /card-brands/{id}, on a database whose open transactions are isolated: unless the
    -- response is a success, the committed data are as before, or Commit was called and did not
    -- succeed.
    pub patch_card_brand-IsUnchanged :
        (input : UpdateCardBrandRequest) (w : W) → IsUnchanged w (patch_card_brand db ctx input w)
    unfolding patch_card_brand update_reply Repo.update_card_brand with_tx_value querier
    patch_card_brand-IsUnchanged input w =
        elim (Bool-cases (input.name == "" || eqb input.id nil_uuid)) [
          | inl invalid ↦ rw invalid (inl refl)
          | inr valid ↦ rw valid (
              ended-IsUnchanged update_reply (λ b. b) w _
                (with_tx-IsAtomic db committed t ctx _
                  (λ tx v. ground (
                    arith,
                    t.card_brand_keeps tx Sqlc.update_card_brand_sql
                        (Arg.text (some input.name) ∷ Arg.uuid input.id ∷ []) v,
                  ))
                  w))
        ]

    -- DELETE /card-brands/{id}, on a database whose open transactions are isolated: unless the
    -- response is a success, the committed data are as before, or Commit was called and did not
    -- succeed.
    pub delete_card_brand-IsUnchanged :
        (id : Uuid) (w : W) → IsUnchanged w (delete_card_brand db ctx id w)
    unfolding delete_card_brand find_reply Repo.delete_card_brand with_tx_value querier
    delete_card_brand-IsUnchanged id w = elim (Bool-cases (eqb id nil_uuid)) [
      | inl invalid ↦ rw invalid (inl refl)
      | inr valid ↦ rw valid (
          ended-IsUnchanged find_reply (λ _. true) w _
            (with_tx-IsAtomic db committed t ctx _
              (λ tx v.
                ground
                  (arith, t.card_brand_keeps tx Sqlc.delete_card_brand_sql (Arg.uuid id ∷ []) v))
              w))
    ]
