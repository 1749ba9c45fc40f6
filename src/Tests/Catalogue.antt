-- ===== src/Tests/Catalogue.antt =====
-- The card brand API on the server in memory.
use finsplitter.Base.{◌≡◌, refl, arith, eq_iff, true, List, [], ◌∷◌}
use finsplitter.Effects.{ok}
use finsplitter.Errs.{message}
use finsplitter.Domain.{CardBrand}
use finsplitter.Domain.Context.{Ctx, background, has_tx, with_tx_value}
use finsplitter.Postgres.CardBrand.{parse_to_card_brand}
use finsplitter.Postgres.CardBrand as Repo
use finsplitter.Postgres.Table.{closed}
use finsplitter.Postgres.Tx.{with_tx}
use finsplitter.CardBrands.Handlers.{find_reply, create_reply}
use finsplitter.CardBrands.Routes.{CardBrandRequest, create, get, delete, brand, gone, serve}
use finsplitter.CardBrands.Spec.{Reply, Trace, not_found_reply, conflict_reply}
use finsplitter.CardBrands.Refinement.{IsFresh}
use finsplitter.CardBrands.Refinement.Runs.{serve_all, serve_all_refines}
use finsplitter.CardBrands.Refinement.Observed.{
  answered_then_get, answered_then_conflict, deleted_then_gone,
}
use finsplitter.Tests.Statements.{schema, new_row}
use finsplitter.Tests.Server.{
  Server, alone, server_db, session_of, server_db-HasPgCodes, server_db-RunsTable,
}

pub background-IsFresh : IsFresh background
unfolding has_tx
background-IsFresh = record { no_outer = refl; no_tx = refl }

abbrev pub empty : Server
empty = record { rows = []; session = closed; sound = tt }

abbrev with_visa : Server
with_visa = record { rows = new_row 1 "Visa" ∷ []; session = closed; sound = tt }

abbrev visa : CardBrand
visa = record { id = 1; name = "Visa"; created_date = 1; last_modified_date = 1 }

abbrev calls : List (Ctx × CardBrandRequest)
calls =
    (background, create "Visa")
    ∷ (background, create "visa")
    ∷ (background, get 1)
    ∷ (background, delete 1)
    ∷ (background, get 1)
    ∷ []

abbrev answers : List (CardBrandRequest × Reply)
answers =
    (create "Visa", ok (brand visa))
    ∷ (create "visa", conflict_reply)
    ∷ (get 1, ok (brand visa))
    ∷ (delete 1, ok (gone true))
    ∷ (get 1, not_found_reply)
    ∷ []

serve_all_refines_example : Trace schema [] answers []
unfolding serve_all serve with_tx Repo.create_card_brand Repo.get_card_brand_by_id
    Repo.delete_card_brand parse_to_card_brand find_reply create_reply message with_tx_value has_tx
serve_all_refines_example =
    serve_all_refines server_db server_db-HasPgCodes schema (λ w. w.rows) (session_of alone)
      server_db-RunsTable calls empty
      (
        background-IsFresh,
        (background-IsFresh, (background-IsFresh, (background-IsFresh, (background-IsFresh, tt)))),
      )

abbrev ServedVisa : Type 0
ServedVisa = serve server_db background (create "Visa") empty ≡ (ok (brand visa), with_visa)

creates_visa : ServedVisa
unfolding serve with_tx Repo.create_card_brand parse_to_card_brand with_tx_value has_tx
creates_visa = refl

deletes_visa : serve server_db background (delete 1) with_visa ≡ (ok (gone true), empty)
unfolding serve with_tx Repo.delete_card_brand parse_to_card_brand with_tx_value has_tx
deletes_visa = refl

answered_then_get_example :
    (v : Server) × (serve server_db background (get 1) with_visa ≡ (ok (brand visa), v))
answered_then_get_example =
    answered_then_get server_db server_db-HasPgCodes schema (λ w. w.rows) (session_of alone)
      server_db-RunsTable background background background-IsFresh background-IsFresh empty
      with_visa (create "Visa") visa creates_visa

answered_then_conflict_example :
    (v : Server) × (serve server_db background (create "visa") with_visa ≡ (conflict_reply, v))
answered_then_conflict_example =
    answered_then_conflict server_db server_db-HasPgCodes schema (λ w. w.rows) (session_of alone)
      server_db-RunsTable background background background-IsFresh background-IsFresh empty
      with_visa (create "Visa") visa "visa" creates_visa refl (ground (arith, eq_iff "visa" ""))
      refl

deleted_then_gone_example :
    ((v : Server) × (serve server_db background (get 1) empty ≡ (not_found_reply, v)))
    × ((v : Server) × (serve server_db background (delete 1) empty ≡ (not_found_reply, v)))
deleted_then_gone_example =
    deleted_then_gone server_db server_db-HasPgCodes schema (λ w. w.rows) (session_of alone)
      server_db-RunsTable background background background-IsFresh background-IsFresh with_visa
      empty 1 (ground arith) deletes_visa
