-- ===== src/CardBrands/Spec/Invariant.antt =====
-- What holds of the table between two requests.
use finsplitter.Base.{
  String, ◌≡◌, ◌≢◌, refl, false, none, List, [], ◌∷◌, eqb, arith, Bool-cases, inl, inr,
}
use finsplitter.Domain.{Uuid}
use finsplitter.Postgres.Table.{Schema, Rows, find, without, has_name}
use finsplitter.CardBrands.Routes.{CardBrandRequest}
use finsplitter.CardBrands.Spec.{Reply, Step, Trace, stop, step, creates, updates, deletes}

find-without : (j id : Uuid) (rows : Rows) → find j rows ≡ none → find j (without id rows) ≡ none
find-without j id [] h = refl
find-without j id (row ∷ rows) h = ground (arith, find-without j id rows)

pub find-without_same : (id : Uuid) (rows : Rows) → find id (without id rows) ≡ none
find-without_same id [] = refl
find-without_same id (row ∷ rows) = ground (arith, find-without_same id rows)

module _ (s : Schema) where
  has_name-without :
      (name : String) (id : Uuid) (rows : Rows)
      → has_name s name rows ≡ false
      → has_name s name (without id rows) ≡ false
  has_name-without name id [] h = refl
  has_name-without name id (row ∷ rows) h = ground (arith, has_name-without name id rows)

  -- Every ID and, up to case, every name occurs once, and no name is empty.
  abbrev pub IsCatalogue : Rows → Type 0
  IsCatalogue [] = Unit {0}
  IsCatalogue (row ∷ rows) =
      (row.name ≢ "")
      × (find row.id rows ≡ none)
      × (has_name s row.name rows ≡ false)
      × IsCatalogue rows

  without-IsCatalogue : (id : Uuid) (rows : Rows) → IsCatalogue rows → IsCatalogue (without id rows)
  without-IsCatalogue id [] h = tt
  without-IsCatalogue id (row ∷ rows) (named, fresh, free, rest) =
      elim (Bool-cases (eqb row.id id)) [
        | inl same ↦ rw same (without-IsCatalogue id rows rest)
        | inr other ↦ rw other (
          named,
          find-without row.id id rows fresh,
          has_name-without row.name id rows free,
          without-IsCatalogue id rows rest,
        )
      ]

  Step-IsCatalogue :
      {rows : Rows} {request : CardBrandRequest} {reply : Reply} {next : Rows}
      → Step s rows request reply next
      → IsCatalogue rows
      → IsCatalogue next
  Step-IsCatalogue (creates name row named _ free fresh same) h =
      (rw same named, fresh, rw same free, h)
  Step-IsCatalogue {rows = rows} (updates input old row named _ _ _ free same_id same _) h = (
    rw same named,
    rw same_id (find-without_same input.id rows),
    rw same free,
    without-IsCatalogue input.id rows h,
  )
  Step-IsCatalogue {rows = rows} (deletes id _ _ _ _) h = without-IsCatalogue id rows h
  Step-IsCatalogue _ h = h

  pub Trace-IsCatalogue :
      {rows : Rows} {calls : List (CardBrandRequest × Reply)} {last : Rows}
      → Trace s rows calls last
      → IsCatalogue rows
      → IsCatalogue last
  Trace-IsCatalogue stop h = h
  Trace-IsCatalogue (step first rest) h = Trace-IsCatalogue rest (Step-IsCatalogue first h)
