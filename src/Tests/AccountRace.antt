-- ===== src/Tests/AccountRace.antt =====
-- A profile setup during which somebody else registers the same user: between the look-up and the
-- INSERT.
use mathlib.Core.List.{Sublist}
use finsplitter.Base.{String, ◌≡◌, refl, arith, none, some, List, [], ◌∷◌, Option-cases, inl, inr}
use finsplitter.Effects.{Result, ok, err}
use finsplitter.Errs.{Error}
use finsplitter.Domain.Context.{Ctx, background}
use finsplitter.Http.{http_error}
use finsplitter.Traces.{Others, Others-IsPassage}
use finsplitter.Postgres.Driver.{Database, HasPgCodes, UserRow}
use finsplitter.Postgres.User as Repo
use finsplitter.Postgres.User.{user_repository, new_user_from_row}
use finsplitter.Postgres.Tx.{querier}
use finsplitter.Postgres.UserTable.{find_logto}
use finsplitter.Postgres.UserTable.Shared.{
  InsertsOnce, added, rejected, RunsAmid, RunsUsers-RunsAmid,
}
use finsplitter.Logto.Client.{
  CachedToken, Shared, get_token, locked_get_token, fetch_token, usable_token, token_lifetime,
  update_user, updated_user,
}
use finsplitter.Accounts.Handlers.{patch_setup, get_me, me_body, set_up_body}
use finsplitter.Accounts.Spec.{
  AccountRequest, set_up, register, who_am_i, Users, Call, Reply, Step, Trace, registers, stop,
  step,
}
use finsplitter.Accounts.Spec.Invariant.{IsLinkedOnce}
use finsplitter.Accounts.Refinement.{serve}
use finsplitter.Accounts.Refinement.Remote.{sees}
use finsplitter.Accounts.Refinement.Client.{logto_creator, logto_updater}
use finsplitter.Accounts.Refinement.Runs.{serve_all, account_calls_linear}
use finsplitter.Accounts.Refinement.Lasting.{set_up_for_good}
use finsplitter.Domain.{uuid_string}
use finsplitter.Tests.Accounts.{ascii, form, claims, signed_in, profile}
use finsplitter.Tests.UserServer.{new_user, users_db, users_db-HasPgCodes, users_db-RunsUsers}
use finsplitter.Base.{false}
use finsplitter.Base.Int.{pos}
use finsplitter.Tests.AccountServer.{config, alone, http, db, logto}

-- What the other client does
abbrev join : String → Users → Users
join name rows = elim (find_logto name rows) as (λ _. Users) [
  | none ↦ new_user name ∷ rows
  | some _ ↦ rows
]

join-Others : (name : String) (rows : Users) → Others Step rows (join name rows)
join-Others name rows = elim (Option-cases (find_logto name rows)) [
  | inl free ↦ rw (join, free) (_, step (registers none form name (new_user name) refl free) stop)
  | inr (row, there) ↦ rw (join, there) ([], stop)
]

abbrev busy_db : String → Database (Shared Users)
busy_db name = record db {
  query_user = λ tx sql args (t, rows).
      let (r, v) = users_db.query_user tx sql args (join name rows) in (r, (t, v));
}

busy_db-HasPgCodes : (name : String) → HasPgCodes (busy_db name)
busy_db-HasPgCodes name = record {
  unique_is_integrity = users_db-HasPgCodes.unique_is_integrity;
  foreign_key_is_integrity = users_db-HasPgCodes.foreign_key_is_integrity;
  codes_differ = users_db-HasPgCodes.codes_differ;
}

same_insert :
    {id name : String} {rows rows' : Users} {r : Result Error UserRow}
    → InsertsOnce users_db id rows r rows'
    → InsertsOnce (busy_db name) id rows r rows'
same_insert (added row named fresh) = added row named fresh
same_insert (rejected t row there) = rejected t row there

one_by_one : RunsAmid users_db (λ a b. a ≡ b) (λ w. w)
one_by_one = RunsUsers-RunsAmid users_db (λ c w. w) users_db-RunsUsers

quiet_rows : {a b : Users} → a ≡ b → Others Step a b
quiet_rows {a} {b} h = rw h ([], stop)

busy_db-RunsAmid : (name : String) → RunsAmid (busy_db name) (Others Step) (sees (λ w. w))
busy_db-RunsAmid name = record {
  inserts = λ id (t, w).
      let (r, v, rows, table, q, comes, answer, goes) = one_by_one.inserts id (join name w) in
      (
        r,
        (t, v),
        rows,
        table,
        ground arith,
        (Others-IsPassage Step).both (join-Others name w) (quiet_rows comes),
        same_insert answer,
        quiet_rows goes,
      );
  selects = λ id (t, w).
      let (v, rows, q, comes, goes) = one_by_one.selects id (join name w) in
      (
        (t, v),
        rows,
        ground arith,
        (Others-IsPassage Step).both (join-Others name w) (quiet_rows comes),
        quiet_rows goes,
      );
  exists = λ id (t, w).
      let (v, rows, q, comes, goes) = one_by_one.exists id w in
      ((t, v), rows, ground arith, quiet_rows comes, quiet_rows goes);
}

abbrev calls : List (Ctx × AccountRequest)
calls = (signed_in, set_up profile) ∷ []

abbrev answers : List (Call × Reply)
answers = ((some claims, set_up profile), err (http_error 409 "profile already set up")) ∷ []

account_calls_linear_example :
    (all : List (Call × Reply)) × Trace [] all (new_user "id" ∷ [])
    × Sublist answers all
    × IsLinkedOnce (new_user "id" ∷ [])
unfolding serve_all serve patch_setup Repo.create Repo.create_error Repo.exists_by_logto_user_id
    new_user_from_row querier update_user updated_user get_token locked_get_token fetch_token
    usable_token token_lifetime
account_calls_linear_example =
    account_calls_linear ascii (busy_db "id") (busy_db-HasPgCodes "id")
      (logto_creator http config alone) (logto_updater http config alone) (sees (λ w. w))
      (busy_db-RunsAmid "id") (logto (Others-IsPassage Step)) calls (none, []) (refl, tt) tt

abbrev further : List (Ctx × AccountRequest)
further = (background, register form) ∷ (signed_in, who_am_i) ∷ []

abbrev held : CachedToken
held = record { access_token = "t"; expires_at = pos 3540000000000 }

abbrev after : Shared Users
after = (some held, new_user "id" ∷ new_user "bob" ∷ [])

set_up_for_good_example :
    (v : Shared Users) × ((serve_all ascii
        (user_repository (busy_db "bob"))
        (logto_creator http config alone)
        (logto_updater http config alone)
        further
        after).1
      ≡ v)
    × ((x : Shared Users) × (get_me (user_repository (busy_db "bob")) signed_in v
          ≡ (ok (me_body claims (record { id = uuid_string 1; needs_setup = false })), x)))
    × ((x : Shared Users) × (patch_setup
            (user_repository (busy_db "bob"))
            (logto_updater http config alone)
            signed_in
            profile
            v
          ≡ (err (http_error 409 "profile already set up"), x)))
unfolding patch_setup Repo.create Repo.exists_by_logto_user_id new_user_from_row querier update_user
    updated_user get_token locked_get_token fetch_token usable_token token_lifetime
set_up_for_good_example =
    set_up_for_good ascii (busy_db "bob") (busy_db-HasPgCodes "bob")
      (logto_creator http config alone) (logto_updater http config alone) (sees (λ w. w))
      (busy_db-RunsAmid "bob") signed_in refl claims refl (logto (Others-IsPassage Step)) profile
      profile (none, []) after (set_up_body (uuid_string 1)) further refl (refl, (refl, tt))
