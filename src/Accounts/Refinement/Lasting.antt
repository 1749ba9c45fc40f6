-- ===== src/Accounts/Refinement/Lasting.antt =====
-- What lasts after a successful profile setup.
use finsplitter.Base.{◌≡◌, refl, false, none, some, List, ◌∷◌, arith, eq_iff}
use finsplitter.Effects.{ok, err}
use finsplitter.Domain.{UserClaims}
use finsplitter.Domain.Context.{Ctx}
use finsplitter.Http.{http_error}
use finsplitter.Strings.{Unicode}
use finsplitter.Postgres.Driver.{Database, HasPgCodes}
use finsplitter.Postgres.User.{user_repository, new_user_from_row}
use finsplitter.Postgres.UserTable.{find_logto}
use finsplitter.Logto.{LogtoUserCreator, LogtoUserUpdater}
use finsplitter.Accounts.Handlers.{SetupBody, MessageBody, me_body, get_me, patch_setup}
use finsplitter.Accounts.Handlers.Setup.{signed_in-IsSetUp}
use finsplitter.Accounts.Spec.{AccountRequest}
use finsplitter.Accounts.Spec.Invariant.{Trace-find_logto}
use finsplitter.Accounts.Refinement.{RunsLogto}
use finsplitter.Traces.{Others, Others-IsPassage, History-shared}
use finsplitter.Postgres.UserTable.Shared.{RunsAmid}
use finsplitter.Accounts.Spec.{Users, Step}
use finsplitter.Base.{◌≢◌, String, eq_refl}
use finsplitter.Postgres.Driver.{UserRow}
use finsplitter.Postgres.User as Repo
use finsplitter.Postgres.User.{user_of}
use finsplitter.Domain.{User, uuid_string}
use finsplitter.Accounts.Refinement.Runs.{AreOutside, serve_all, serve_all-History}
use finsplitter.Accounts.Refinement.Repository.{
  create_cases, created, refused, get_cases, got, missed, exists_cases, known, unknown,
}

module _ {W : Type 0} (u : Unicode) (db : Database W) (codes : HasPgCodes db)
    (creator : LogtoUserCreator W) (updater : LogtoUserUpdater W) (seen : W → Users)
    (runs : RunsAmid db (Others Step) seen) (ctx : Ctx) (outside : ctx.tx ≡ none)
    (claims : UserClaims) (c : ctx.claims ≡ some claims) where
  -- The row that a successful Create has made is there afterwards.
  created_lasts :
      (id : String) (w w' : W) (user : User)
      → Repo.create db ctx id w ≡ (ok user, w')
      → (row : UserRow) × (find_logto id (seen w') ≡ some row) × (user ≡ user_of row)
  created_lasts id w w' user h =
      elim (create_cases db codes (Others Step) seen runs ctx outside id w) [
        | created row v rows named fresh q comes goes ↦
            let here : find_logto id (row ∷ rows) ≡ some row = ground (arith, eq_refl id) in
            let same : v ≡ w' = ground arith in
            (row, rw (← same) (Trace-find_logto id row goes.1 here), ground arith)
        | refused row v rows there q comes goes ↦ absurd (ground arith)
      ]

  module _ (row : UserRow) (w : W) (there : find_logto claims.sub (seen w) ≡ some row) where
    -- what the two requests answer while the row is there
    me_reads :
        (id : String)
        → id ≡ uuid_string row.id
        → (x : W) × (get_me (user_repository db) ctx w
            ≡ (ok (me_body claims (record { id = id; needs_setup = false })), x))
    unfolding get_me new_user_from_row
    me_reads id is_id = elim (get_cases db codes (Others Step) seen runs ctx outside claims.sub w) [
      | got other v rows found q comes goes ↦
          let still = Trace-find_logto claims.sub row comes.1 there in
          let same : other ≡ row = ground (arith, found, still) in
          (v, ground (arith, c, q, same, is_id))
      | missed v rows absent q comes goes ↦
          let still = Trace-find_logto claims.sub row comes.1 there in
          absurd (ground (arith, absent, still))
    ]

    setup_refused :
        (body : SetupBody)
        → claims.sub ≢ ""
        → (x : W) × (patch_setup (user_repository db) updater ctx body w
            ≡ (err (http_error 409 "profile already set up"), x))
    unfolding patch_setup
    setup_refused body named =
        elim (exists_cases db codes (Others Step) seen runs ctx outside claims.sub w) [
          | known other v rows found q comes goes ↦
              (v, ground (arith, c, q, named, eq_iff claims.sub ""))
          | unknown v rows absent q comes goes ↦
              let still = Trace-find_logto claims.sub row comes.1 there in
              absurd (ground (arith, absent, still))
        ]

  -- While other clients send requests of their own that change the table, on a PostgreSQL server
  -- that is up, and with a Logto client whose calls return without an error of the domain: once a
  -- profile setup has succeeded for the claims of a token, outside a transaction, and after any
  -- further requests of the same client, none in a transaction either, GET /auth/me with these claims reports the user ID of the
  -- setup, the names of the token and that no setup is needed, and another setup is answered by a
  -- 409.
  pub set_up_for_good :
      (logto : RunsLogto (Others Step) seen creator updater) (body again : SetupBody) (w w' : W)
      (reply : MessageBody) (calls : List (Ctx × AccountRequest))
      → patch_setup (user_repository db) updater ctx body w ≡ (ok reply, w')
      → AreOutside calls
      → (v : W) × ((serve_all u (user_repository db) creator updater calls w').1 ≡ v)
        × ((x : W) × (get_me (user_repository db) ctx v
              ≡ (ok (me_body claims (record { id = reply.user_id; needs_setup = false })), x)))
        × ((x : W) × (patch_setup (user_repository db) updater ctx again v
              ≡ (err (http_error 409 "profile already set up"), x)))
  unfolding new_user_from_row
  set_up_for_good logto body again w w' reply calls h all =
      let s = signed_in-IsSetUp (user_repository db) updater ctx claims body w w' reply c h in
      let same : s.claims ≡ claims = ground (arith, s.signed_in, c) in
      let (row, linked, is_row) = created_lasts s.claims.sub s.updated w' s.user s.creates in
      let start : find_logto claims.sub (seen w') ≡ some row = rw (← same) linked in
      let v = (serve_all u (user_repository db) creator updater calls w').1 in
      let history =
        serve_all-History u db codes creator updater (Others-IsPassage Step) seen runs logto calls
          w' all in
      let (seen_calls, trace, among) = History-shared Step history in
      let there = Trace-find_logto claims.sub row trace start in
      let id : reply.user_id ≡ uuid_string row.id = ground (arith, s.replies, is_row) in
      let named : claims.sub ≢ "" = rw (← same) s.has_sub in
      (v, refl, me_reads row v there reply.user_id id, setup_refused row v there again named)
