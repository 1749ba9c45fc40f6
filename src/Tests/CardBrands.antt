-- ===== src/Tests/CardBrands.antt =====
-- Card brands, transactions and pages.
use finsplitter.Base.{◌≡◌, refl, false, some, [], ◌∷◌, arith, eq_iff}
use finsplitter.Effects.{err, Action, fail}
use finsplitter.Errs.{Error, plain, pg}
use finsplitter.Domain.{CardBrand}
use finsplitter.Domain.Context.{Ctx, background, has_tx}
use finsplitter.Domain.Pagination.{offset}
use finsplitter.Domain.Pagination.Laws.{page, offset_wraps}
use finsplitter.Http.{http_error}
use finsplitter.Postgres.Driver.{CardBrandRow, text, uuid}
use finsplitter.Postgres.Sqlc
use finsplitter.Postgres.CardBrand.{
  parse_to_card_brand, parse_all, create_repo, update_repo, delete_repo,
}
use finsplitter.Postgres.CardBrand as Repo
use finsplitter.Postgres.Tx.{with_tx}
use finsplitter.Postgres.Tx.Laws.{IsAtomic, with_tx-IsAtomic}
use finsplitter.CardBrands.Handlers.{
  UpdateCardBrandRequest, post_card_brand, patch_card_brand, delete_card_brand,
}
use finsplitter.CardBrands.Handlers.Statuses.{
  unique_key, foreign_key, FailsInTx, post_card_brand-status, patch_card_brand-status,
  delete_card_brand-status,
}
use finsplitter.CardBrands.Handlers.Atomic.{IsUnchanged}
use finsplitter.CardBrands.Routes.{create, update, serve, CardBrandBody as Body}
use finsplitter.CardBrands.Routes.Atomic.{serve-IsUnchanged}
use finsplitter.CardBrands.Routes.Stored.{serve-IsStored}
use finsplitter.CardBrands.Handlers.Stored.{IsStored}
use finsplitter.CardBrands.Handlers.Pages.{first_pages, first_pages_lem}
use finsplitter.Tests.Database.{
  Memory, brand, memory, memory_db, memory_db-IsTransactional, memory_db-HasPgCodes,
}

abbrev rename : UpdateCardBrandRequest
rename = record { id = 8; name = "Hiper" }

abbrev rename_to_taken : UpdateCardBrandRequest
rename_to_taken = record { id = 8; name = "Visa" }

abbrev after_post : Memory
after_post = record {
  rows = brand 10 "Hiper" ∷ memory.rows;
  draft = brand 10 "Hiper" ∷ memory.rows;
}

abbrev after_patch : Memory
after_patch = record {
  rows = brand 8 "Hiper" ∷ brand 7 "Visa" ∷ brand 9 "Amex" ∷ [];
  draft = brand 8 "Hiper" ∷ brand 7 "Visa" ∷ brand 9 "Amex" ∷ [];
}

abbrev after_delete : Memory
after_delete = record {
  rows = brand 7 "Visa" ∷ brand 9 "Amex" ∷ [];
  draft = brand 7 "Visa" ∷ brand 9 "Amex" ∷ [];
}

-- a callback that does nothing and fails
abbrev failing : Ctx → Action Memory Error CardBrand
failing ctx = fail (plain "no")

with_tx-IsAtomic_example :
    IsAtomic memory_db (λ w. w.rows) memory (with_tx memory_db background failing memory)
with_tx-IsAtomic_example =
    with_tx-IsAtomic memory_db (λ w. w.rows) memory_db-IsTransactional background failing
      (λ tx v. refl) memory

serve-IsStored_example :
    (row : CardBrandRow) × IsStored memory_db background Sqlc.create_card_brand_sql
      (text (some "Hiper") ∷ [])
      memory
      row
      after_post
    × (Body.brand (parse_to_card_brand (brand 10 "Hiper")) ≡ Body.brand (parse_to_card_brand row))
unfolding serve post_card_brand with_tx Repo.create_card_brand
serve-IsStored_example =
    serve-IsStored memory_db background (create "Hiper") memory after_post
      (Body.brand (parse_to_card_brand (brand 10 "Hiper"))) tt refl

abbrev begun : Memory
begun = record memory { draft = memory.rows }

no_outer_tx : has_tx background ≡ false
unfolding has_tx
no_outer_tx = refl

abbrev failed_post :
    FailsInTx memory_db background Sqlc.create_card_brand_sql
      (text (some "Visa") ∷ [])
      memory
      (pg "23505" "duplicate key")
failed_post = record {
  tx = 1;
  begun = begun;
  failed = begun;
  rolled = memory;
  no_outer = no_outer_tx;
  begins = refl;
  fails = refl;
  rolls_back = refl;
}

abbrev failed_patch :
    FailsInTx memory_db background Sqlc.update_card_brand_sql
      (text (some "Visa") ∷ uuid 8 ∷ [])
      memory
      (pg "23505" "duplicate key")
failed_patch = record {
  tx = 1;
  begun = begun;
  failed = begun;
  rolled = memory;
  no_outer = no_outer_tx;
  begins = refl;
  fails = refl;
  rolls_back = refl;
}

abbrev failed_delete :
    FailsInTx memory_db background Sqlc.delete_card_brand_sql
      (uuid 9 ∷ [])
      memory
      (pg "23503" "still referenced")
failed_delete = record {
  tx = 1;
  begun = begun;
  failed = begun;
  rolled = memory;
  no_outer = no_outer_tx;
  begins = refl;
  fails = refl;
  rolls_back = refl;
}

post_card_brand-status_example :
    post_card_brand memory_db background "Visa" memory
    ≡ (err (http_error 409 "card brand already exists"), memory)
post_card_brand-status_example =
    post_card_brand-status memory_db memory_db-HasPgCodes background (unique_key "duplicate key") tt
      memory "Visa" failed_post (ground (arith, eq_iff "Visa" ""))

patch_card_brand-status_example :
    patch_card_brand memory_db background rename_to_taken memory
    ≡ (err (http_error 409 "card brand already exists"), memory)
patch_card_brand-status_example =
    patch_card_brand-status memory_db memory_db-HasPgCodes background (unique_key "duplicate key")
      tt memory rename_to_taken failed_patch (ground (arith, eq_iff "Visa" "")) (ground arith)

delete_card_brand-status_example :
    delete_card_brand memory_db background 9 memory
    ≡ (err (http_error 500 "card brand foreign key violation"), memory)
delete_card_brand-status_example =
    delete_card_brand-status memory_db memory_db-HasPgCodes background
      (foreign_key "still referenced") tt memory 9 failed_delete (ground arith)

first_pages_lem_example : first_pages memory_db background memory 0 "" 2 2 ≡ parse_all memory.rows
unfolding parse_all
first_pages_lem_example =
    first_pages_lem memory_db background memory 0 "" memory.rows (λ off limit. refl) 2 2
      (omega arith)

offset_wraps_example : offset (page 64 67108866) ≡ offset (page 64 2)
offset_wraps_example = offset_wraps 1 (omega arith)

serve-IsUnchanged_example :
    IsUnchanged memory_db
      (λ w. w.rows)
      memory
      (serve memory_db background (update rename_to_taken) memory)
serve-IsUnchanged_example =
    serve-IsUnchanged memory_db (λ w. w.rows) memory_db-IsTransactional background
      (update rename_to_taken) memory tt
