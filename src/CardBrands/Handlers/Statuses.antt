-- ===== src/CardBrands/Handlers/Statuses.antt =====
-- The status of every failure: from the error that PostgreSQL reports, through the repository, the
-- transaction, the use case and the handler, to the response.
use finsplitter.Base.{
  ℕ, String, ◌≡◌, ◌≢◌, refl, true, false, some, List, eq_iff, eq_refl, arith, [], ◌∷◌,
}
use finsplitter.Effects.{ok, err}
use finsplitter.Errs.{Error, sentinel, plain, pg, no_rows, message}
use finsplitter.Domain.{Uuid, nil_uuid}
use finsplitter.Domain.Context.{Ctx, has_tx, with_tx_value}
use finsplitter.Http.{HttpError, http_error}
use finsplitter.Postgres.Driver.{Database, HasPgCodes, Arg}
use finsplitter.Postgres.Tx.{with_tx, querier}
use finsplitter.Postgres.Sqlc
use finsplitter.Postgres.CardBrand as Repo
use finsplitter.CardBrands.UseCases.{bare_exists, bare_update}
use finsplitter.CardBrands.Handlers.{
  UpdateCardBrandRequest, post_card_brand, patch_card_brand, delete_card_brand, create_reply,
  find_reply, update_reply,
}

-- What the database can answer to a statement on one card brand, other than a row.
pub data Failure : Type 0 where
  unique_key foreign_key : (text : String) → Failure
  other_constraint other_code : (code text : String) → Failure
  missing_row : Failure
  broken : (text : String) → Failure

module _ {W : Type 0} (db : Database W) where
  abbrev pub failure_error : Failure → Error
  failure_error (unique_key text) = pg db.unique_violation text
  failure_error (foreign_key text) = pg db.foreign_key_violation text
  failure_error (other_constraint code text) = pg code text
  failure_error (other_code code text) = pg code text
  failure_error missing_row = sentinel no_rows
  failure_error (broken text) = plain text

  -- The code of `other_constraint` is an integrity violation and none of the two named ones, and
  -- that of `other_code` is no integrity violation.
  abbrev pub IsFailure : Failure → Type 0
  IsFailure (other_constraint code text) =
      (db.is_integrity_constraint_violation code ≡ true)
      × (code ≢ db.unique_violation)
      × (code ≢ db.foreign_key_violation)
  IsFailure (other_code code text) = db.is_integrity_constraint_violation code ≡ false
  IsFailure _ = Unit {0}

  -- A request's transaction in which the statement fails with `e` and is rolled back.
  pub record FailsInTx (ctx : Ctx) (sql : String) (args : List Arg) (w : W) (e : Error)
      : Type 0 where
    pub tx : ℕ
    pub begun : W
    pub failed : W
    pub rolled : W
    pub no_outer : has_tx ctx ≡ false
    pub begins : db.begin w ≡ (ok tx, begun)
    pub fails : db.query_card_brand (some tx) sql args begun ≡ (err e, failed)
    pub rolls_back : db.rollback tx failed ≡ (ok tt, rolled)

abbrev pub post_status : Failure → HttpError
post_status (unique_key _) = http_error 409 "card brand already exists"
post_status (foreign_key _) = http_error 500 "card brand foreign key violation"
post_status (other_constraint _ _) = http_error 500 "database operation failed"
post_status (other_code _ text) = http_error 500 text
post_status missing_row = http_error 500 "no rows in result set"
post_status (broken text) = http_error 500 text

abbrev pub patch_status : Failure → HttpError
patch_status missing_row = http_error 404 "CardBrand not found"
patch_status f = post_status f

-- A brand that cards refer to is not answered by a 409.
abbrev pub delete_status : Failure → HttpError
delete_status (unique_key _) = http_error 500 "database operation failed"
delete_status f = patch_status f

-- Through the transaction, the use case and the handler, whatever the error.
module _ {W : Type 0} (db : Database W) (ctx : Ctx) (e : Error) (w : W) where
  delete_through :
      (id : Uuid)
      → (t : FailsInTx db ctx Sqlc.delete_card_brand_sql (Arg.uuid id ∷ []) w e) → id ≢ nil_uuid
      → delete_card_brand db ctx id w ≡ (err (find_reply (Repo.delete_error db e)), t.rolled)
  unfolding delete_card_brand with_tx Repo.delete_card_brand with_tx_value querier
  delete_through id t h = ground arith

  post_through :
      (name : String)
      → (t : FailsInTx db ctx Sqlc.create_card_brand_sql (Arg.text (some name) ∷ []) w e)
      → name ≢ ""
      → post_card_brand db ctx name w
        ≡ (err (create_reply (bare_exists (Repo.create_error db e))), t.rolled)
  unfolding post_card_brand with_tx Repo.create_card_brand with_tx_value querier
  post_through name t h = ground (arith, eq_iff name "")

  patch_through :
      (input : UpdateCardBrandRequest)
      → (t : FailsInTx db ctx Sqlc.update_card_brand_sql
          (Arg.text (some input.name) ∷ Arg.uuid input.id ∷ [])
          w
          e)
      → input.name ≢ ""
      → input.id ≢ nil_uuid
      → patch_card_brand db ctx input w
        ≡ (err (update_reply (bare_update (Repo.update_error db e))), t.rolled)
  unfolding patch_card_brand with_tx Repo.update_card_brand with_tx_value querier
  patch_through input t h k = ground (arith, eq_iff input.name "")

module _ {W : Type 0} (db : Database W) (codes : HasPgCodes db) where
  delete_reply :
      (f : Failure)
      → IsFailure db f
      → find_reply (Repo.delete_error db (failure_error db f)) ≡ delete_status f
  unfolding find_reply Repo.delete_error message
  delete_reply (unique_key text) good =
      ground (arith, codes, eq_iff db.unique_violation db.foreign_key_violation)
  delete_reply (foreign_key text) good = ground (arith, codes, eq_refl db.foreign_key_violation)
  delete_reply (other_constraint code text) good =
      ground (arith, eq_iff code db.foreign_key_violation)
  delete_reply (other_code code text) good = ground arith
  delete_reply missing_row good = ground arith
  delete_reply (broken text) good = ground arith

  post_reply :
      (f : Failure)
      → IsFailure db f
      → create_reply (bare_exists (Repo.create_error db (failure_error db f))) ≡ post_status f
  unfolding create_reply Repo.create_error message
  post_reply (unique_key text) good = ground (arith, codes, eq_refl db.unique_violation)
  post_reply (foreign_key text) good = ground (
    arith,
    codes,
    eq_iff db.foreign_key_violation db.unique_violation,
    eq_refl db.foreign_key_violation,
  )
  post_reply (other_constraint code text) good =
      ground (arith, eq_iff code db.unique_violation, eq_iff code db.foreign_key_violation)
  post_reply (other_code code text) good = ground arith
  post_reply missing_row good = refl
  post_reply (broken text) good = refl

  patch_reply :
      (f : Failure)
      → IsFailure db f
      → update_reply (bare_update (Repo.update_error db (failure_error db f))) ≡ patch_status f
  unfolding update_reply Repo.update_error message
  patch_reply (unique_key text) good = ground (arith, codes, eq_refl db.unique_violation)
  patch_reply (foreign_key text) good = ground (
    arith,
    codes,
    eq_iff db.foreign_key_violation db.unique_violation,
    eq_refl db.foreign_key_violation,
  )
  patch_reply (other_constraint code text) good =
      ground (arith, eq_iff code db.unique_violation, eq_iff code db.foreign_key_violation)
  patch_reply (other_code code text) good = ground arith
  patch_reply missing_row good = refl
  patch_reply (broken text) good = refl

  module _ (ctx : Ctx) (f : Failure) (good : IsFailure db f) (w : W) where
    -- DELETE /card-brands/{id}, for an ID that is not nil, where the transaction is begun, the
    -- statement fails and the rollback succeeds: for each way in which the statement can fail, the
    -- response has the status and the message of `delete_status`: 404 if there is no such row, and
    -- 500 otherwise, also if other rows refer to the brand. The world is the one that the rollback
    -- leaves.
    pub delete_card_brand-status :
        (id : Uuid)
        (t : FailsInTx db ctx Sqlc.delete_card_brand_sql (Arg.uuid id ∷ []) w (failure_error db f))
        → id ≢ nil_uuid
        → delete_card_brand db ctx id w ≡ (err (delete_status f), t.rolled)
    delete_card_brand-status id t h =
        rw (← delete_reply f good) (delete_through db ctx (failure_error db f) w id t h)

    -- POST /card-brands, for a name that is not empty, where the transaction is begun, the
    -- statement fails and the rollback succeeds: 409 if the name is taken, and 500 for every other
    -- failure of the statement, with the message of `post_status`. The world is the one that the
    -- rollback leaves.
    pub post_card_brand-status :
        (name : String)
        (t : FailsInTx db ctx Sqlc.create_card_brand_sql
          (Arg.text (some name) ∷ [])
          w
          (failure_error db f))
        → name ≢ ""
        → post_card_brand db ctx name w ≡ (err (post_status f), t.rolled)
    post_card_brand-status name t h =
        rw (← post_reply f good) (post_through db ctx (failure_error db f) w name t h)

    -- PATCH /card-brands/{id}, for a name that is not empty and an ID that is not nil, where the
    -- transaction is begun, the statement fails and the rollback succeeds: 404 if there is no such
    -- row, 409 if the name is taken, and 500 for every other failure of the statement, with the
    -- message of `patch_status`. The world is the one that the rollback leaves.
    pub patch_card_brand-status :
        (input : UpdateCardBrandRequest)
        (t : FailsInTx db ctx Sqlc.update_card_brand_sql
          (Arg.text (some input.name) ∷ Arg.uuid input.id ∷ [])
          w
          (failure_error db f))
        → input.name ≢ ""
        → input.id ≢ nil_uuid
        → patch_card_brand db ctx input w ≡ (err (patch_status f), t.rolled)
    patch_card_brand-status input t h k =
        rw (← patch_reply f good) (patch_through db ctx (failure_error db f) w input t h k)
