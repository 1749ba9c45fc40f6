-- ===== src/CardBrands/Handlers/Pages.antt =====
-- Listing: the pages that a client asks for one after the other make up the table.
use finsplitter.Base.{
  ℕ, zero, suc, String, ◌≡◌, refl, sym, ap, some, none, List, [], ◌∷◌, ◌++◌, take, drop,
  take-append-take, ◌+◌, ◌*◌, ◌<◌, ◌^◌, arith, eqb, if◌then◌else◌,
}
use mathlib.Core.Path.{◌≡⟨◌⟩◌, ◌∎}
use finsplitter.Effects.{Result, ok, err, panic}
use finsplitter.Http.{HttpError}
use finsplitter.Domain.{Uuid, nil_uuid, uuid_string, CardBrand}
use finsplitter.Domain.Context.{Ctx}
use finsplitter.Domain.Pagination.Laws.{offset_exact}
use finsplitter.Postgres.Driver.{Database, Arg, CardBrandRow}
use finsplitter.Postgres.Sqlc
use finsplitter.Postgres.Sqlc.{ListCardBrandsParams}
use finsplitter.Postgres.Tx.{querier}
use finsplitter.Postgres.CardBrand as Repo
use finsplitter.Postgres.CardBrand.{parse_all, parse_to_card_brand, list_params}
use finsplitter.CardBrands.Handlers.{
  ListCardBrandsRequest, ListCardBrandsBody, list_body, get_card_brands,
}

abbrev pub request : Uuid → String → ℕ → ℕ → ListCardBrandsRequest
request id name size number = record {
  id = id;
  name = name;
  page_size = size;
  page_number = number;
}

abbrev pub id_arg : Uuid → Arg
id_arg id = Arg.text (if eqb id nil_uuid then none else some (uuid_string id))

parse_all-append : (xs ys : List CardBrandRow) → parse_all (xs ++ ys) ≡ parse_all xs ++ parse_all ys
unfolding parse_all
parse_all-append [] ys = refl
parse_all-append (x ∷ xs) ys = ap (λ l. parse_to_card_brand x ∷ l) (parse_all-append xs ys)

module _ {W : Type 0} (db : Database W) (ctx : Ctx) (w : W) (id : Uuid) (name : String) where
  -- LIMIT and OFFSET, as PostgreSQL documents them: in the state `w` the query selects `rows`, in
  -- this order, and returns at most `limit` of them after the first `offset`.
  abbrev pub Selects : List CardBrandRow → Type 0
  Selects rows =
      (off limit : ℕ)
      → db.query_card_brands ctx.tx Sqlc.list_card_brands_sql
          (id_arg id ∷ Arg.text (some name) ∷ Arg.bigint off ∷ Arg.bigint limit ∷ []) w
        ≡ (ok (take limit (drop off rows)), w)

  -- GET /card-brands: page `number + 1` holds the rows from `number * size` on, at most `size` of
  -- them, as long as `number * size` fits a uint32; `total_count` counts this page only.
  pub page_lem :
      (rows : List CardBrandRow)
      → Selects rows
      → (size number : ℕ) → number * size < 2 ^ 32
      → get_card_brands db ctx (request id name size (number + 1)) w
        ≡ (ok (list_body (parse_all (take size (drop (number * size) rows)))), w)
  unfolding get_card_brands Repo.list_card_brands Sqlc.list_card_brands querier list_params
  page_lem rows sel size number h =
      ground (arith, offset_exact size number h, sel (number * size) size)

  brands_of : Result HttpError ListCardBrandsBody → List CardBrand
  brands_of (ok body) = body.card_brands
  brands_of (err _) = []
  brands_of (panic _) = []

  -- the bodies of pages 1 to `n`, one after the other
  pub first_pages : (size n : ℕ) → List CardBrand
  unfolding brands_of
  first_pages size zero = []
  first_pages size (suc n) =
      first_pages size n ++ brands_of (get_card_brands db ctx (request id name size (n + 1)) w).0

  -- If the list query selects some rows and applies its limit and offset to them, the first `n`
  -- pages of GET /card-brands, one after the other, are the first `n * size` of these rows, each
  -- once and in order, as long as `n * size` is below 2 ^ 32.
  pub first_pages_lem :
      (rows : List CardBrandRow)
      → Selects rows
      → (size n : ℕ) → n * size < 2 ^ 32
      → first_pages size n ≡ parse_all (take (n * size) rows)
  unfolding first_pages parse_all
  first_pages_lem rows sel size zero h = let none_yet : 0 * size ≡ 0 = omega arith in rw none_yet
  first_pages_lem rows sel size (suc n) h =
      let more : n * size + size ≡ suc n * size = grind arith in
      first_pages size n ++ brands_of (get_card_brands db ctx (request id name size (n + 1)) w).0
      ≡⟨ ap (λ r. first_pages size n ++ brands_of r.0) (page_lem rows sel size n (omega arith)) ⟩
        first_pages size n ++ parse_all (take size (drop (n * size) rows))
      ≡⟨ ap (λ l. l ++ parse_all (take size (drop (n * size) rows)))
          (first_pages_lem rows sel size n (omega arith)) ⟩
        parse_all (take (n * size) rows) ++ parse_all (take size (drop (n * size) rows))
      ≡⟨ sym (parse_all-append (take (n * size) rows) (take size (drop (n * size) rows))) ⟩
        parse_all (take (n * size) rows ++ take size (drop (n * size) rows))
      ≡⟨ ap parse_all (take-append-take (n * size) size (suc n * size) rows more) ⟩
        parse_all (take (suc n * size) rows) ∎
