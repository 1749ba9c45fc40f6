-- ===== src/CardBrands/Refinement/Requests.antt =====
-- Every request, whatever its names and IDs.
use finsplitter.Base.{
  ℕ, String, ◌==◌, ◌≡◌, refl, none, some, arith, eq_iff, eqb, Bool-cases, Option-cases, inl, inr,
  if◌then◌else◌,
}
use finsplitter.Effects.{ok, err}
use finsplitter.Errs.{message}
use finsplitter.Domain.{Uuid, nil_uuid, uuid_string}
use finsplitter.Domain.Pagination.{offset}
use finsplitter.Domain.Context.{Ctx}
use finsplitter.Http.{http_error}
use finsplitter.Postgres.Driver.{Database, HasPgCodes}
use finsplitter.Postgres.Tx.{querier}
use finsplitter.Postgres.CardBrand as Repo
use finsplitter.Postgres.CardBrand.{parse_to_card_brand, parse_all, list_params}
use finsplitter.Traces.{IsPassage}
use finsplitter.Postgres.Table.{Schema, Rows, TxState, RunsShared, find}
use finsplitter.CardBrands.Handlers.{
  ListCardBrandsRequest, UpdateCardBrandRequest, post_card_brand, patch_card_brand,
  delete_card_brand, get_card_brand, get_card_brands, find_reply, list_body,
}
use finsplitter.CardBrands.Routes.{
  CardBrandRequest, list, create, get, update, delete, brands, brand, serve,
}
use finsplitter.CardBrands.Spec
use finsplitter.CardBrands.Spec.{not_found_reply, listed}
use finsplitter.CardBrands.Refinement.{IsFresh, IsServed}
use finsplitter.CardBrands.Refinement.Writes.{insert-IsServed, update-IsServed, delete-IsServed}

module _ {W : Type 0} (db : Database W) (codes : HasPgCodes db) (s : Schema)
    {amid : Rows → Rows → Type 0} (pass : IsPassage amid) (committed : W → Rows)
    (state : ℕ → W → TxState) (runs : RunsShared db s amid committed state) (ctx : Ctx)
    (fresh : IsFresh ctx) (w : W) where
  serve_create : (name : String) → IsServed db s amid committed ctx (create name) w
  unfolding serve post_card_brand message
  serve_create name = elim (Bool-cases (name == "")) [
    | inl empty ↦
        let none_given : name ≡ "" = ground (arith, eq_iff name "") in
        rw none_given (record {
          reply = err (http_error 500 "name is required");
          after = w;
          rows = committed w;
          table = committed w;
          serves = refl;
          comes = pass.nothing (committed w);
          leaves = pass.nothing (committed w);
          steps = Spec.creates_unnamed;
        })
    | inr named ↦
        let (tx, v, b, st, l) = runs.begins w in
        let (r, u, rows, q, comes, answer, goes) = runs.inserts tx v name st in
        insert-IsServed db s pass committed state runs ctx fresh w codes tx v u b rows
          (pass.both l comes) goes name (ground (arith, eq_iff name "")) answer refl q
  ]

  serve_update :
      (input : UpdateCardBrandRequest) → IsServed db s amid committed ctx (update input) w
  unfolding serve patch_card_brand message
  serve_update input = elim (Bool-cases (input.name == "")) [
    | inl empty ↦
        let none_given : input.name ≡ "" = ground (arith, eq_iff input.name "") in
        record {
          reply = err (http_error 500 "name and id are required");
          after = w;
          rows = committed w;
          table = committed w;
          serves = ground (arith, eq_iff input.name "");
          comes = pass.nothing (committed w);
          leaves = pass.nothing (committed w);
          steps = Spec.updates_invalid input (inl none_given);
        }
    | inr named ↦ elim (Bool-cases (eqb input.id nil_uuid)) [
      | inl no_id ↦ record {
        reply = err (http_error 500 "name and id are required");
        after = w;
        rows = committed w;
        table = committed w;
        serves = ground (arith, eq_iff input.name "");
        comes = pass.nothing (committed w);
        leaves = pass.nothing (committed w);
        steps = Spec.updates_invalid input (inr (ground arith));
      }
      | inr some_id ↦
          let (tx, v, b, st, l) = runs.begins w in
          let (r, u, rows, q, comes, answer, goes) = runs.updates tx v input.name input.id st in
          update-IsServed db s pass committed state runs ctx fresh w codes tx v u b rows
            (pass.both l comes) goes input (ground (arith, eq_iff input.name "")) (ground arith)
            answer refl q
    ]
  ]

  serve_delete : (id : Uuid) → IsServed db s amid committed ctx (delete id) w
  unfolding serve delete_card_brand message
  serve_delete id = elim (Bool-cases (eqb id nil_uuid)) [
    | inl no_id ↦
        let nothing : id ≡ nil_uuid = ground arith in
        rw nothing (record {
          reply = err (http_error 500 "id is required");
          after = w;
          rows = committed w;
          table = committed w;
          serves = refl;
          comes = pass.nothing (committed w);
          leaves = pass.nothing (committed w);
          steps = Spec.deletes_nil;
        })
    | inr some_id ↦
        let (tx, v, b, st, l) = runs.begins w in
        let (r, u, rows, q, comes, answer, goes) = runs.deletes tx v id st in
        delete-IsServed db s pass committed state runs ctx fresh w codes tx v u b rows
          (pass.both l comes) goes id (ground arith) answer refl q
  ]

  serve_get : (id : Uuid) → IsServed db s amid committed ctx (get id) w
  unfolding serve get_card_brand Repo.get_card_brand_by_id find_reply querier
  serve_get id =
      let (v, rows, q, comes, goes) = runs.gets w id in
      elim (Option-cases (find id rows)) [
        | inl absent ↦ record {
          reply = not_found_reply;
          after = v;
          rows = rows;
          table = rows;
          serves = ground (arith, fresh.no_tx, q, absent);
          comes = comes;
          leaves = goes;
          steps = Spec.gets_none id absent;
        }
        | inr (row, there) ↦ record {
          reply = ok (brand (parse_to_card_brand row));
          after = v;
          rows = rows;
          table = rows;
          serves = ground (arith, fresh.no_tx, q, there);
          comes = comes;
          leaves = goes;
          steps = Spec.gets id row there;
        }
      ]

  serve_list : (input : ListCardBrandsRequest) → IsServed db s amid committed ctx (list input) w
  unfolding serve get_card_brands Repo.list_card_brands list_params querier
  serve_list input =
      let id = if eqb input.id nil_uuid then none else some (uuid_string input.id) in
      let off = offset (record { page_size = input.page_size; page_number = input.page_number }) in
      let (v, rows, q, comes, goes) = runs.lists w id (some input.name) off input.page_size in
      record {
        reply = ok (brands (list_body (parse_all (listed s input rows))));
        after = v;
        rows = rows;
        table = rows;
        serves = ground (arith, fresh.no_tx, q);
        comes = comes;
        leaves = goes;
        steps = Spec.lists input;
      }

  -- any request
  pub serve_refines : (request : CardBrandRequest) → IsServed db s amid committed ctx request w
  serve_refines (list input) = serve_list input
  serve_refines (create name) = serve_create name
  serve_refines (get id) = serve_get id
  serve_refines (update input) = serve_update input
  serve_refines (delete id) = serve_delete id
