-- ===== src/CardBrands/Refinement/Observed.antt =====
-- What a client that sends one request after the other can rely on.
use finsplitter.Base.{ℕ, String, ◌≡◌, ◌≢◌, refl, true, false, none, arith}
use finsplitter.Effects.{ok}
use finsplitter.Domain.{Uuid, nil_uuid, CardBrand}
use finsplitter.Domain.Context.{Ctx}
use finsplitter.Postgres.Driver.{Database, HasPgCodes}
use finsplitter.Postgres.CardBrand.{parse_to_card_brand}
use finsplitter.Traces.{≡-IsPassage}
use finsplitter.Postgres.Table.{Schema, Rows, TxState, RunsTable, find, has_name}
use finsplitter.CardBrands.Routes.{CardBrandRequest, create, get, delete, brand, gone, serve}
use finsplitter.CardBrands.Spec.{
  Reply, Step, not_found_reply, conflict_reply, gets, gets_none, creates, creates_taken,
  creates_rejected, creates_cancelled, deletes, deletes_cancelled, deletes_in_use,
}
use finsplitter.CardBrands.Spec.Observed.{IsRow, Step-IsRow, Step-gone, has_name-find}
use finsplitter.CardBrands.Refinement.{IsFresh, IsServed}
use finsplitter.CardBrands.Refinement.Requests.{serve_refines}

module _ (s : Schema) where
  get_of_row :
      {rows next : Rows} {request : CardBrandRequest} {reply : Reply} (b : CardBrand)
      → Step s rows request reply next
      → request ≡ get b.id
      → IsRow s rows b
      → (reply ≡ ok (brand b)) × (next ≡ rows)
  get_of_row b (gets id row there) q (row', there', same) = ground arith
  get_of_row b (gets_none id absent) q (row', there', same) = ground arith
  get_of_row b _ q _ = ground arith

  get_of_none :
      {rows next : Rows} {request : CardBrandRequest} {reply : Reply} (id : Uuid)
      → Step s rows request reply next
      → request ≡ get id
      → find id rows ≡ none
      → reply ≡ not_found_reply
  get_of_none id (gets j row there) q absent = ground arith
  get_of_none id (gets_none j _) q absent = refl
  get_of_none id _ q _ = ground arith

  delete_of_none :
      {rows next : Rows} {request : CardBrandRequest} {reply : Reply} (id : Uuid)
      → Step s rows request reply next
      → request ≡ delete id
      → s.cancels ≡ false
      → id ≢ nil_uuid
      → find id rows ≡ none
      → reply ≡ not_found_reply
  delete_of_none id (deletes j row _ there _) q calm some_id absent = ground arith
  delete_of_none id (deletes_in_use j row _ there _) q calm some_id absent = ground arith
  delete_of_none id (deletes_cancelled j t _ may) q calm some_id absent = absurd (ground arith)
  delete_of_none id _ q calm some_id _ = ground arith

  create_of_taken :
      {rows next : Rows} {request : CardBrandRequest} {reply : Reply} (name : String)
      → Step s rows request reply next
      → request ≡ create name
      → s.cancels ≡ false
      → name ≢ ""
      → s.accepts name ≡ true
      → has_name s name rows ≡ true
      → reply ≡ conflict_reply
  create_of_taken {rows = rows} name (creates n row _ _ free _ _) q calm named fits taken =
      let same : n ≡ name = ground arith in
      let free' : has_name s name rows ≡ false = rw (← same) free in
      absurd (ground (arith, free', taken))
  create_of_taken name (creates_taken n _ _) q calm named fits taken = refl
  create_of_taken name (creates_rejected n t _ unfit) q calm named fits taken =
      let same : n ≡ name = ground arith in
      let unfit' : s.accepts name ≡ false = rw (← same) unfit in
      absurd (ground (arith, unfit', fits))
  create_of_taken name (creates_cancelled n t _ may) q calm named fits taken =
      absurd (ground (arith, may, calm))
  create_of_taken name _ q calm named fits taken = ground arith

module _ {W : Type 0} (db : Database W) (codes : HasPgCodes db) (s : Schema) (committed : W → Rows)
    (state : ℕ → W → TxState) (runs : RunsTable db s committed state) (ctx c : Ctx)
    (fresh : IsFresh ctx) (fresh' : IsFresh c) (w w' : W) where
  IsServed-next : (request : CardBrandRequest) → IsServed db s (λ a b. a ≡ b) committed c request w'
  IsServed-next = serve_refines db codes s ≡-IsPassage committed state runs.0 c fresh' w'

  -- what the first of two requests leaves
  brand_left :
      (request : CardBrandRequest) (b : CardBrand)
      → serve db ctx request w ≡ (ok (brand b), w')
      → IsRow s (committed w') b
  brand_left request b h =
      let first = serve_refines db codes s ≡-IsPassage committed state runs.0 ctx fresh w request in
      let row = Step-IsRow s b first.steps (ground (arith, first.serves, h)) in
      let same : committed w' ≡ first.table = ground (arith, first.serves, first.leaves, h) in
      rw same row

  none_left :
      (id : Uuid)
      → serve db ctx (delete id) w ≡ (ok (gone true), w')
      → find id (committed w') ≡ none
  none_left id h =
      let first =
        serve_refines db codes s ≡-IsPassage committed state runs.0 ctx fresh w (delete id) in
      let row = Step-gone s id first.steps refl (ground (arith, first.serves, h)) in
      let same : committed w' ≡ first.table = ground (arith, first.serves, first.leaves, h) in
      rw same row

  -- On a PostgreSQL server that is up, where a request has been answered with a card brand, be it
  -- POST, GET or PATCH, a GET for the ID of that brand is answered with the same brand next.
  pub answered_then_get :
      (request : CardBrandRequest) (b : CardBrand)
      → serve db ctx request w ≡ (ok (brand b), w')
      → (v : W) × (serve db c (get b.id) w' ≡ (ok (brand b), v))
  answered_then_get request b h =
      let next = IsServed-next (get b.id) in
      let (same, _) = get_of_row s b next.steps refl (rw (← next.comes) (brand_left request b h)) in
      (next.after, ground (arith, next.serves, same))

  -- On a PostgreSQL server that is up, where a request has been answered with a card brand, a POST next for a name
  -- that differs from the brand's name at most in case, is not empty and fits the column, is
  -- answered by a 409.
  pub answered_then_conflict :
      (request : CardBrandRequest) (b : CardBrand) (name : String)
      → serve db ctx request w ≡ (ok (brand b), w')
      → s.lower name ≡ s.lower b.name
      → name ≢ ""
      → s.accepts name ≡ true
      → (v : W) × (serve db c (create name) w' ≡ (conflict_reply, v))
  unfolding parse_to_card_brand
  answered_then_conflict request b name h alike named fits =
      let next = IsServed-next (create name) in
      let (row, there, same) = brand_left request b h in
      let taken =
        has_name-find s b.id name (committed w') row there (ground (arith, same, alike)) in
      let refused =
        create_of_taken s name next.steps refl runs.1 named fits (rw (← next.comes) taken) in
      (next.after, ground (arith, next.serves, refused))

  -- On a PostgreSQL server that is up, after a successful DELETE both a GET and a second DELETE for the same ID are
  -- answered by a 404.
  pub deleted_then_gone :
      (id : Uuid)
      → id ≢ nil_uuid
      → serve db ctx (delete id) w ≡ (ok (gone true), w')
      → ((v : W) × (serve db c (get id) w' ≡ (not_found_reply, v)))
        × ((v : W) × (serve db c (delete id) w' ≡ (not_found_reply, v)))
  deleted_then_gone id some_id h =
      let read = IsServed-next (get id) in
      let again = IsServed-next (delete id) in
      let absent = none_left id h in
      let a = get_of_none s id read.steps refl (rw (← read.comes) absent) in
      let b = delete_of_none s id again.steps refl runs.1 some_id (rw (← again.comes) absent) in
      ((read.after, ground (arith, read.serves, a)), (again.after, ground (arith, again.serves, b)))
