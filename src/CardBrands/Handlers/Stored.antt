-- ===== src/CardBrands/Handlers/Stored.antt =====
-- What a success response of a writing request says about the database.
use finsplitter.Base.{
  ℕ, String, ◌==◌, ◌≡◌, ◌||◌, ◌∙◌, Bool, true, false, some, List, [], ◌∷◌, eqb, arith, Bool-cases,
  inl, inr,
}
use finsplitter.Effects.{ok, map_err, Action}
use finsplitter.Effects.Laws.{catch-eq-ok}
use finsplitter.Errs.{Error}
use finsplitter.Domain.{Uuid, nil_uuid, CardBrand}
use finsplitter.Domain.Context as C
use finsplitter.Domain.Context.{Ctx, has_tx, with_tx_value}
use finsplitter.Postgres.Driver.{Database, Arg, CardBrandRow}
use finsplitter.Postgres.Tx.{with_tx, querier}
use finsplitter.Postgres.Tx.Laws.{IsCommitted, with_tx-eq-ok}
use finsplitter.Postgres.Sqlc
use finsplitter.Postgres.CardBrand as Repo
use finsplitter.Postgres.CardBrand.{parse_to_card_brand}
use finsplitter.CardBrands.UseCases.{bare_exists, bare_update}
use finsplitter.CardBrands.Handlers.{
  UpdateCardBrandRequest, post_card_brand, patch_card_brand, delete_card_brand, create_reply,
  find_reply, update_reply,
}

module _ {W : Type 0} (db : Database W) (ctx : Ctx) where
  -- One transaction, in which the statement returned the row, has been committed.
  pub record IsStored (sql : String) (args : List Arg) (w : W) (row : CardBrandRow) (w' : W)
      : Type 0 where
    pub tx : ℕ
    pub begun : W
    pub worked : W
    pub no_outer : has_tx ctx ≡ false
    pub begins : db.begin w ≡ (ok tx, begun)
    pub runs : db.query_card_brand (some tx) sql args begun ≡ (ok row, worked)
    pub commits : db.commit tx worked ≡ (ok tt, w')

  stored :
      (sql : String) (args : List Arg) (w w' : W) (a : CardBrand)
      (call : Ctx → Action W Error CardBrand) (c : IsCommitted db ctx call w a w')
      → (row : CardBrandRow) × (db.query_card_brand (some c.tx) sql args c.begun
          ≡ (ok row, c.worked))
        × (a ≡ parse_to_card_brand row)
      → (row : CardBrandRow) × IsStored sql args w row w' × (a ≡ parse_to_card_brand row)
  stored sql args w w' a call c (row, runs, same) = (
    row,
    record {
      tx = c.tx;
      begun = c.begun;
      worked = c.worked;
      no_outer = c.no_outer;
      begins = c.begins;
      runs = runs;
      commits = c.commits;
    },
    same,
  )

  -- the callbacks that the use cases hand to the transaction manager
  abbrev create_call : String → Ctx → Action W Error CardBrand
  create_call name c = map_err bare_exists (Repo.create_card_brand db c name)

  abbrev update_call : UpdateCardBrandRequest → Ctx → Action W Error CardBrand
  update_call input c =
      map_err bare_update
        (Repo.update_card_brand db c (record { id = input.id; name = input.name }))

  abbrev delete_call : Uuid → Ctx → Action W Error CardBrand
  delete_call id c = Repo.delete_card_brand db c id

  -- POST /card-brands: a success response carries the row that the INSERT returned, and the
  -- transaction of that INSERT has been committed.
  pub post_card_brand-IsStored :
      (name : String) (w w' : W) (b : CardBrand)
      → post_card_brand db ctx name w ≡ (ok b, w')
      → (row : CardBrandRow) × IsStored Sqlc.create_card_brand_sql
          (Arg.text (some name) ∷ [])
          w
          row
          w'
        × (b ≡ parse_to_card_brand row)
  unfolding post_card_brand Repo.create_card_brand create_reply querier with_tx_value
  post_card_brand-IsStored name w w' b h = elim (Bool-cases (name == "")) [
    | inl empty ↦ absurd (ground arith)
    | inr named ↦
        let sql : String = Sqlc.create_card_brand_sql in
        let args : List Arg = Arg.text (some name) ∷ [] in
        let (a, ran, same) =
          catch-eq-ok (with_tx db ctx (create_call name)) create_reply (λ x. x) w (rw named at h) in
        let c = with_tx-eq-ok db ctx (create_call name) w a w' ran in
        let (x, made, same') =
          catch-eq-ok (Repo.create_card_brand db (with_tx_value (C.with_tx ctx) c.tx) name)
            bare_exists (λ y. y) c.begun c.works in
        let (row, runs, same'') =
          catch-eq-ok (db.query_card_brand (some c.tx) sql args) (Repo.create_error db)
            parse_to_card_brand c.begun made in
        rw same (stored sql args w w' a (create_call name) c (row, runs, same' ∙ same''))
  ]

  -- PATCH /card-brands/{id}: a success response carries the row that the UPDATE returned, and the
  -- transaction of that UPDATE has been committed.
  pub patch_card_brand-IsStored :
      (input : UpdateCardBrandRequest) (w w' : W) (b : CardBrand)
      → patch_card_brand db ctx input w ≡ (ok b, w')
      → (row : CardBrandRow) × IsStored Sqlc.update_card_brand_sql
          (Arg.text (some input.name) ∷ Arg.uuid input.id ∷ [])
          w
          row
          w'
        × (b ≡ parse_to_card_brand row)
  unfolding patch_card_brand Repo.update_card_brand update_reply querier with_tx_value
  patch_card_brand-IsStored input w w' b h =
      elim (Bool-cases (input.name == "" || eqb input.id nil_uuid)) [
        | inl invalid ↦ absurd (ground arith)
        | inr valid ↦
            let sql : String = Sqlc.update_card_brand_sql in
            let args : List Arg = Arg.text (some input.name) ∷ Arg.uuid input.id ∷ [] in
            let (a, ran, same) =
              catch-eq-ok (with_tx db ctx (update_call input)) update_reply (λ x. x) w
                (rw valid at h) in
            let c = with_tx-eq-ok db ctx (update_call input) w a w' ran in
            let (x, made, same') =
              catch-eq-ok
                (Repo.update_card_brand db (with_tx_value (C.with_tx ctx) c.tx)
                  (record { id = input.id; name = input.name }))
                bare_update (λ y. y) c.begun c.works in
            let (row, runs, same'') =
              catch-eq-ok (db.query_card_brand (some c.tx) sql args) (Repo.update_error db)
                parse_to_card_brand c.begun made in
            rw same (stored sql args w w' a (update_call input) c (row, runs, same' ∙ same''))
      ]

  -- DELETE /card-brands/{id}: a success response says `deleted`, and the transaction of a DELETE
  -- that returned a row has been committed.
  pub delete_card_brand-IsStored :
      (id : Uuid) (w w' : W) (deleted : Bool)
      → delete_card_brand db ctx id w ≡ (ok deleted, w')
      → (row : CardBrandRow) × IsStored Sqlc.delete_card_brand_sql (Arg.uuid id ∷ []) w row w'
        × (deleted ≡ true)
  unfolding delete_card_brand Repo.delete_card_brand find_reply querier with_tx_value
  delete_card_brand-IsStored id w w' deleted h = elim (Bool-cases (eqb id nil_uuid)) [
    | inl invalid ↦ absurd (ground arith)
    | inr valid ↦
        let sql : String = Sqlc.delete_card_brand_sql in
        let args : List Arg = Arg.uuid id ∷ [] in
        let (a, ran, same) =
          catch-eq-ok (with_tx db ctx (delete_call id)) find_reply (λ _. true) w (rw valid at h) in
        let c = with_tx-eq-ok db ctx (delete_call id) w a w' ran in
        let (row, runs, same') =
          catch-eq-ok (db.query_card_brand (some c.tx) sql args) (Repo.delete_error db)
            parse_to_card_brand c.begun c.works in
        let (row', kept, _) = stored sql args w w' a (delete_call id) c (row, runs, same') in
        (row', kept, same)
  ]
