-- ===== src/CardBrands/Spec/Observed.antt =====
-- What a response says about the table after it.
use finsplitter.Base.{String, ◌≡◌, true, none, some, [], ◌∷◌, arith, eq_iff}
use finsplitter.Effects.{ok}
use finsplitter.Domain.{Uuid, CardBrand}
use finsplitter.Postgres.Driver.{CardBrandRow}
use finsplitter.Postgres.CardBrand.{parse_to_card_brand}
use finsplitter.Postgres.Table.{Schema, Rows, find, has_name}
use finsplitter.CardBrands.Routes.{CardBrandRequest, delete, brand, gone}
use finsplitter.CardBrands.Spec.{Reply, Step, gets, creates, updates, deletes}
use finsplitter.CardBrands.Spec.Invariant.{find-without_same}

pub find-id : (id : Uuid) (rows : Rows) (row : CardBrandRow) → find id rows ≡ some row → row.id ≡ id
find-id id [] row h = ground arith
find-id id (x ∷ rows) row h = ground (arith, find-id id rows row)

module _ (s : Schema) where
  pub has_name-find :
      (id : Uuid) (name : String) (rows : Rows) (row : CardBrandRow)
      → find id rows ≡ some row
      → s.lower row.name ≡ s.lower name
      → has_name s name rows ≡ true
  has_name-find id name [] row h same = ground arith
  has_name-find id name (x ∷ rows) row h same =
      ground (arith, has_name-find id name rows row, eq_iff (s.lower x.name) (s.lower name))

  -- the row behind a brand in a response
  abbrev pub IsRow : Rows → CardBrand → Type 0
  IsRow rows b = (row : CardBrandRow) × (find b.id rows ≡ some row) × (b ≡ parse_to_card_brand row)

  pub Step-IsRow :
      {rows : Rows} {request : CardBrandRequest} {reply : Reply} {next : Rows} (b : CardBrand)
      → Step s rows request reply next
      → reply ≡ ok (brand b)
      → IsRow next b
  unfolding parse_to_card_brand
  Step-IsRow {rows = rows} b (gets id row there) h =
      (row, ground (arith, there, find-id id rows row there), ground arith)
  Step-IsRow b (creates name row _ _ _ _ _) h = (row, ground arith, ground arith)
  Step-IsRow b (updates input old row _ _ _ _ _ _ _ _) h = (row, ground arith, ground arith)
  Step-IsRow b _ h = ground arith

  pub Step-gone :
      {rows : Rows} {request : CardBrandRequest} {reply : Reply} {next : Rows} (id : Uuid)
      → Step s rows request reply next
      → request ≡ delete id
      → reply ≡ ok (gone true)
      → (find id next ≡ none)
  Step-gone {rows = rows} id (deletes j row some_id there unused) q h =
      ground (arith, find-without_same id rows)
  Step-gone id _ q h = ground arith
