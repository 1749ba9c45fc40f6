-- ===== src/CardBrands/Refinement/Writes.antt =====
-- The three writing requests, from the answer of the statement on.
use finsplitter.Base.{ℕ, String, ◌≡◌, ◌≢◌, true, some, List, [], ◌∷◌, arith}
use finsplitter.Effects.{Result, ok, err}
use finsplitter.Errs.{Error}
use finsplitter.Domain.{Uuid, nil_uuid}
use finsplitter.Domain.Context.{Ctx}
use finsplitter.Http.{http_error}
use finsplitter.Postgres.Driver.{Database, HasPgCodes, CardBrandRow, Arg}
use finsplitter.Postgres.Sqlc
use finsplitter.Postgres.CardBrand.{parse_to_card_brand}
use finsplitter.Traces.{IsPassage}
use finsplitter.Postgres.Table.{
  Schema, Rows, TxState, closed, aborted, RunsShared, insert, replace, remove, clean, changed,
  without, Inserts, Updates, Deletes,
}
use finsplitter.Postgres.Table as Sql
use finsplitter.CardBrands.Handlers.{UpdateCardBrandRequest}
use finsplitter.CardBrands.Handlers.Statuses.{
  FailsInTx, unique_key, foreign_key, other_code, missing_row, post_card_brand-status,
  patch_card_brand-status, delete_card_brand-status,
}
use finsplitter.CardBrands.Routes.{create, update, delete, brand, gone, serve}
use finsplitter.CardBrands.Spec
use finsplitter.CardBrands.Spec.{conflict_reply, not_found_reply}
use finsplitter.CardBrands.Refinement.{IsFresh, IsServed}
use finsplitter.CardBrands.Refinement.Calls.{post_succeeds, patch_succeeds, delete_succeeds}

module _ {W : Type 0} (db : Database W) (s : Schema) {amid : Rows → Rows → Type 0}
    (pass : IsPassage amid) (committed : W → Rows) (state : ℕ → W → TxState)
    (runs : RunsShared db s amid committed state) (ctx : Ctx) (fresh : IsFresh ctx) (w : W) where
  -- The statement of the request's transaction has failed: the rollback succeeds.
  fails_in :
      {sql : String} {args : List Arg} {e : Error} (tx : ℕ) (v u : W)
      → db.begin w ≡ (ok tx, v)
      → db.query_card_brand (some tx) sql args v ≡ (err e, u)
      → state tx u ≢ closed
      → (t : FailsInTx db ctx sql args w e) × amid (committed u) (committed t.rolled)
  fails_in tx v u begins fails open_yet =
      let (x, rolls_back, l) = runs.rolls_back tx u open_yet in
      (
        record {
          tx = tx;
          begun = v;
          failed = u;
          rolled = x;
          no_outer = fresh.no_outer;
          begins = begins;
          fails = fails;
          rolls_back = rolls_back;
        },
        l,
      )

  module _ (codes : HasPgCodes db) (tx : ℕ) (v u : W) (begins : db.begin w ≡ (ok tx, v))
      (rows : Rows) (comes : amid (committed w) rows) (goes : amid rows (committed u)) where
    pub insert-IsServed :
        (name : String) {r : Result Error CardBrandRow} {t : TxState}
        → name ≢ ""
        → Inserts db s name rows r t
        → state tx u ≡ t
        → db.query_card_brand (some tx) Sqlc.create_card_brand_sql (Arg.text (some name) ∷ []) v
          ≡ (r, u)
        → IsServed db s amid committed ctx (create name) w
    unfolding serve
    insert-IsServed name named (Sql.inserted row same fits) st q =
        let (x, at, commits, l, (unused, free), l') = runs.commits tx (insert row) u st in
        record {
          reply = ok (brand (parse_to_card_brand row));
          after = x;
          rows = at;
          table = row ∷ at;
          serves = ground (arith, post_succeeds db ctx fresh.no_outer begins commits name named q);
          comes = pass.both (pass.both comes goes) l;
          leaves = l';
          steps = Spec.creates name row named fits (rw (← same) free) unused same;
        }
    insert-IsServed name named (Sql.duplicate t taken) st q =
        let (f, l) = fails_in tx v u begins q (ground (arith, st)) in
        record {
          reply = conflict_reply;
          after = f.rolled;
          rows = rows;
          table = rows;
          serves =
              ground (arith, post_card_brand-status db codes ctx (unique_key t) tt w name f named);
          comes = comes;
          leaves = pass.both goes l;
          steps = Spec.creates_taken name named taken;
        }
    insert-IsServed name named (Sql.rejected code t unfit other) st q =
        let (f, l) = fails_in tx v u begins q (ground (arith, st)) in
        record {
          reply = err (http_error 500 t);
          after = f.rolled;
          rows = rows;
          table = rows;
          serves =
              ground (
                arith,
                post_card_brand-status db codes ctx (other_code code t) other w name f named,
              );
          comes = comes;
          leaves = pass.both goes l;
          steps = Spec.creates_rejected name t named unfit;
        }
    insert-IsServed name named (Sql.cancelled code t may other) st q =
        let (f, l) = fails_in tx v u begins q (ground (arith, st)) in
        record {
          reply = err (http_error 500 t);
          after = f.rolled;
          rows = rows;
          table = rows;
          serves =
              ground (
                arith,
                post_card_brand-status db codes ctx (other_code code t) other w name f named,
              );
          comes = comes;
          leaves = pass.both goes l;
          steps = Spec.creates_cancelled name t named may;
        }

    pub update-IsServed :
        (input : UpdateCardBrandRequest) {r : Result Error CardBrandRow} {t : TxState}
        → input.name ≢ ""
        → input.id ≢ nil_uuid
        → Updates db s input.name input.id rows r t
        → state tx u ≡ t
        → db.query_card_brand
            (some tx)
            Sqlc.update_card_brand_sql
            (Arg.text (some input.name) ∷ Arg.uuid input.id ∷ [])
            v
          ≡ (r, u)
        → IsServed db s amid committed ctx (update input) w
    unfolding serve
    update-IsServed input named some_id (Sql.updated old row same_id same kept fits) st q =
        let (x, at, commits, l, (there, free), l') = runs.commits tx (replace old row) u st in
        record {
          reply = ok (brand (parse_to_card_brand row));
          after = x;
          rows = at;
          table = row ∷ without input.id at;
          serves =
              ground
                (arith, patch_succeeds db ctx fresh.no_outer begins commits input named some_id q);
          comes = pass.both (pass.both comes goes) l;
          leaves = rw (← same_id) l';
          steps =
              Spec.updates input old row named some_id fits (rw (← same_id) there)
                (rw (← same_id, ← same) free) same_id same kept;
        }
    update-IsServed input named some_id (Sql.missing absent) st q =
        let (f, l) = fails_in tx v u begins q (ground (arith, st)) in
        record {
          reply = not_found_reply;
          after = f.rolled;
          rows = rows;
          table = rows;
          serves =
              ground (
                arith,
                patch_card_brand-status db codes ctx missing_row tt w input f named some_id,
              );
          comes = comes;
          leaves = pass.both goes l;
          steps = Spec.updates_none input named some_id absent;
        }
    update-IsServed input named some_id (Sql.duplicate t old there taken) st q =
        let (f, l) = fails_in tx v u begins q (ground (arith, st)) in
        record {
          reply = conflict_reply;
          after = f.rolled;
          rows = rows;
          table = rows;
          serves = ground (
            arith,
            patch_card_brand-status db codes ctx (unique_key t) tt w input f named some_id,
          );
          comes = comes;
          leaves = pass.both goes l;
          steps = Spec.updates_taken input old named some_id there taken;
        }
    update-IsServed input named some_id (Sql.rejected code t unfit other) st q =
        let (f, l) = fails_in tx v u begins q (ground (arith, st)) in
        record {
          reply = err (http_error 500 t);
          after = f.rolled;
          rows = rows;
          table = rows;
          serves = ground (
            arith,
            patch_card_brand-status db codes ctx (other_code code t) other w input f named some_id,
          );
          comes = comes;
          leaves = pass.both goes l;
          steps = Spec.updates_rejected input t named some_id unfit;
        }
    update-IsServed input named some_id (Sql.cancelled code t may other) st q =
        let (f, l) = fails_in tx v u begins q (ground (arith, st)) in
        record {
          reply = err (http_error 500 t);
          after = f.rolled;
          rows = rows;
          table = rows;
          serves = ground (
            arith,
            patch_card_brand-status db codes ctx (other_code code t) other w input f named some_id,
          );
          comes = comes;
          leaves = pass.both goes l;
          steps = Spec.updates_cancelled input t named some_id may;
        }

    pub delete-IsServed :
        (id : Uuid) {r : Result Error CardBrandRow} {t : TxState}
        → id ≢ nil_uuid
        → Deletes db s id rows r t
        → state tx u ≡ t
        → db.query_card_brand (some tx) Sqlc.delete_card_brand_sql (Arg.uuid id ∷ []) v ≡ (r, u)
        → IsServed db s amid committed ctx (delete id) w
    unfolding serve
    delete-IsServed id some_id (Sql.deleted row same) st q =
        let (x, at, commits, l, (there, unused), l') = runs.commits tx (remove row) u st in
        record {
          reply = ok (gone true);
          after = x;
          rows = at;
          table = without id at;
          serves =
              ground (arith, delete_succeeds db ctx fresh.no_outer begins commits id some_id q);
          comes = pass.both (pass.both comes goes) l;
          leaves = rw (← same) l';
          steps = Spec.deletes id row some_id (rw (← same) there) (rw (← same) unused);
        }
    delete-IsServed id some_id (Sql.missing absent) st q =
        let (f, l) = fails_in tx v u begins q (ground (arith, st)) in
        record {
          reply = not_found_reply;
          after = f.rolled;
          rows = rows;
          table = rows;
          serves =
              ground (arith, delete_card_brand-status db codes ctx missing_row tt w id f some_id);
          comes = comes;
          leaves = pass.both goes l;
          steps = Spec.deletes_none id some_id absent;
        }
    delete-IsServed id some_id (Sql.referenced t row there used) st q =
        let (f, l) = fails_in tx v u begins q (ground (arith, st)) in
        record {
          reply = err (http_error 500 "card brand foreign key violation");
          after = f.rolled;
          rows = rows;
          table = rows;
          serves =
              ground
                (arith, delete_card_brand-status db codes ctx (foreign_key t) tt w id f some_id);
          comes = comes;
          leaves = pass.both goes l;
          steps = Spec.deletes_in_use id row some_id there used;
        }
    delete-IsServed id some_id (Sql.cancelled code t may other) st q =
        let (f, l) = fails_in tx v u begins q (ground (arith, st)) in
        record {
          reply = err (http_error 500 t);
          after = f.rolled;
          rows = rows;
          table = rows;
          serves = ground (
            arith,
            delete_card_brand-status db codes ctx (other_code code t) other w id f some_id,
          );
          comes = comes;
          leaves = pass.both goes l;
          steps = Spec.deletes_cancelled id t some_id may;
        }
