-- ===== src/Tests/Shared.antt =====
-- The card brand API on the server in memory, while another client adds a brand of its own.
use mathlib.Core.List.{Sublist}
use finsplitter.Base.{refl, List, [], ◌∷◌, arith, eq_iff, Bool-cases, inl, inr, if◌then◌else◌}
use finsplitter.Effects.{ok}
use finsplitter.Errs.{message}
use finsplitter.Domain.Context.{Ctx, background, has_tx, with_tx_value}
use finsplitter.Postgres.CardBrand.{parse_to_card_brand}
use finsplitter.Postgres.CardBrand as Repo
use finsplitter.Postgres.Table.{Rows, TxState, closed, aborted, clean, changed, has_name}
use finsplitter.Postgres.Tx.{with_tx}
use finsplitter.CardBrands.Handlers.{create_reply}
use finsplitter.CardBrands.Routes.{CardBrandRequest, create, brand, serve}
use finsplitter.CardBrands.Spec.{Reply, Step, Trace, stop, step, creates, conflict_reply}
use finsplitter.CardBrands.Spec.Invariant.{IsCatalogue}
use finsplitter.Traces.{Others, Others-IsPassage}
use finsplitter.CardBrands.Refinement.Runs.{serve_all, serve_all_linear}
use finsplitter.Tests.Statements.{schema, new_id, new_row, Sound, find_unused}
use finsplitter.Tests.Server.{
  Clients, shared_db, session_of, shared_db-HasPgCodes, shared_db-RunsShared,
}
use finsplitter.Tests.Catalogue.{background-IsFresh, empty}

abbrev add_amex : Rows → Rows
add_amex rows = if has_name schema "Amex" rows then rows else new_row (new_id rows) "Amex" ∷ rows

-- The other client waits while a change is not committed.
abbrev amid_add : TxState → Rows → Rows
amid_add (changed c) rows = rows
amid_add _ rows = add_amex rows

amid_add-Sound : (st : TxState) (rows : Rows) → Sound st rows → Sound st (amid_add st rows)
amid_add-Sound (changed c) rows h = h
amid_add-Sound _ rows h = tt

abbrev busy : Clients
busy = record { meanwhile = amid_add; keeps = amid_add-Sound }

add_amex-Others : (rows : Rows) → Others (Step schema) rows (add_amex rows)
unfolding parse_to_card_brand
add_amex-Others rows = elim (Bool-cases (has_name schema "Amex" rows)) [
  | inl there ↦ rw there ([], stop)
  | inr free ↦ rw free (
    _,
    step
        (creates "Amex" (new_row (new_id rows) "Amex") (ground (arith, eq_iff "Amex" "")) refl free
          (find_unused (new_id rows) rows (omega arith)) refl)
        stop,
  )
]

busy-Others : (st : TxState) (rows : Rows) → Others (Step schema) rows (busy.meanwhile st rows)
busy-Others (changed c) rows = ([], stop)
busy-Others closed rows = add_amex-Others rows
busy-Others aborted rows = add_amex-Others rows
busy-Others clean rows = add_amex-Others rows

abbrev calls : List (Ctx × CardBrandRequest)
calls = (background, create "Visa") ∷ (background, create "Amex") ∷ []

abbrev answers : List (CardBrandRequest × Reply)
answers =
    (
      create "Visa",
      ok (brand (record { id = 2; name = "Visa"; created_date = 1; last_modified_date = 1 })),
    )
    ∷ (create "Amex", conflict_reply)
    ∷ []

serve_all_linear_example :
    (all : List (CardBrandRequest × Reply)) × Trace schema [] all
      (new_row 2 "Visa" ∷ new_row 1 "Amex" ∷ [])
    × Sublist answers all
    × IsCatalogue schema (new_row 2 "Visa" ∷ new_row 1 "Amex" ∷ [])
unfolding serve_all serve with_tx Repo.create_card_brand parse_to_card_brand create_reply message
    with_tx_value has_tx
serve_all_linear_example =
    serve_all_linear (shared_db busy) (shared_db-HasPgCodes busy) schema (λ w. w.rows)
      (session_of busy)
      (shared_db-RunsShared busy (Others (Step schema)) busy-Others
        (Others-IsPassage (Step schema)))
      calls empty (background-IsFresh, (background-IsFresh, tt)) tt
