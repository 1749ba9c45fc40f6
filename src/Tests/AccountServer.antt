-- ===== src/Tests/AccountServer.antt =====
-- Registrations and profile setups on a table of users in memory, through the Logto client and an
-- identity provider that gives every new user the ID "bob".
use finsplitter.Base.{ℕ, String, refl, arith, Option, none, List, [], ◌∷◌}
use finsplitter.Traces.{IsPassage, ≡-IsPassage}
use finsplitter.Base.Int.{pos}
use finsplitter.Effects.{Result, ok}
use finsplitter.Errs.{Error}
use finsplitter.Domain.Context.{Ctx, background}
use finsplitter.Postgres.Driver.{Database, HasPgCodes, UserRow}
use finsplitter.Postgres.User.{user_repository}
use finsplitter.Postgres.UserTable.{RunsUsers, InsertsUser, inserted, taken}
use finsplitter.Logto.Http.{HttpResponse, HttpClient}
use finsplitter.Logto.Client.{Config, Shared, outside}
use finsplitter.Accounts.Spec.{AccountRequest, register, who_am_i, set_up, Trace}
use finsplitter.Accounts.Refinement.{RunsLogto}
use finsplitter.Accounts.Refinement.Remote.{sees, IsRemote}
use finsplitter.Accounts.Refinement.Client.{logto_creator, logto_updater, client-RunsLogto}
use finsplitter.Accounts.Refinement.Runs.{serve_all, serve_all-Trace}
use finsplitter.Tests.Accounts.{ascii, form, signed_in, profile}
use finsplitter.Tests.UserServer.{
  Users, new_user, users_db, users_db-HasPgCodes, users_db-RunsUsers, any_usable,
}

abbrev response : HttpResponse
response = record {
  status = 200;
  texts = ("access_token", "t") ∷ ("id", "bob") ∷ [];
  numbers = ("expires_in", pos 3600) ∷ [];
}

abbrev pub http : HttpClient Users
http = record { send = λ request w. (ok response, w); now = λ w. 0 }

abbrev pub config : Config
config = record {
  oidc_endpoint = "https://id.example.com/oidc";
  management_base_url = "https://id.example.com";
  management_api_resource = "";
  client_id = "m2m";
  client_secret = "secret";
  device_app_client_id = "app";
}

abbrev pub alone : Shared Users → Shared Users
alone s = s

-- the table next to the token of the Logto client
abbrev pub db : Database (Shared Users)
db = record {
  begin = outside users_db.begin;
  commit = λ tx. outside (users_db.commit tx);
  rollback = λ tx. outside (users_db.rollback tx);
  query_card_brand = λ tx sql args. outside (users_db.query_card_brand tx sql args);
  query_card_brands = λ tx sql args. outside (users_db.query_card_brands tx sql args);
  query_user = λ tx sql args. outside (users_db.query_user tx sql args);
  query_bool = λ tx sql args. outside (users_db.query_bool tx sql args);
  is_integrity_constraint_violation = users_db.is_integrity_constraint_violation;
  unique_violation = users_db.unique_violation;
  foreign_key_violation = users_db.foreign_key_violation;
}

pub db-HasPgCodes : HasPgCodes db
db-HasPgCodes = record {
  unique_is_integrity = users_db-HasPgCodes.unique_is_integrity;
  foreign_key_is_integrity = users_db-HasPgCodes.foreign_key_is_integrity;
  codes_differ = users_db-HasPgCodes.codes_differ;
}

abbrev table : Option ℕ → Shared Users → Users
table c = sees (λ w. w)

same_insert :
    {id : String} {rows rows' : Users} {r : Result Error UserRow}
    → InsertsUser users_db id rows r rows'
    → InsertsUser db id rows r rows'
same_insert (inserted row named fresh) = inserted row named fresh
same_insert (taken t row rows' there) = taken t row rows' there

db-RunsUsers : RunsUsers db table
db-RunsUsers = record {
  usable = λ c w. Unit {0};
  pool = λ w. tt;
  succeeds = λ c id w v row h. (tt, tt);
  inserts = λ c id (t, w) h.
      let (r, v, q, answer) = users_db-RunsUsers.inserts c id w (any_usable c w) in
      (r, (t, v), ground arith, same_insert answer);
  selects = λ c id (t, w) h. ground (arith, users_db-RunsUsers.selects c id w (any_usable c w));
  exists = λ c id (t, w) h. ground (arith, users_db-RunsUsers.exists c id w (any_usable c w));
  fails = λ id (t, w) (t', v) e h. users_db-RunsUsers.fails id w v e (ground arith);
}

http-IsRemote :
    {amid : Users → Users → Type 0} (pass : IsPassage amid)
    → IsRemote http config alone pass (λ w. w)
http-IsRemote pass = record {
  sends = λ request w. record {
    result = ok response;
    after = w;
    runs = refl;
    returned = tt;
    apart = pass.nothing w;
  };
  waiting = λ (token, w). pass.nothing w;
}

pub logto :
    {amid : Users → Users → Type 0} (pass : IsPassage amid)
    → RunsLogto amid
        (sees (λ w. w))
        (logto_creator http config alone)
        (logto_updater http config alone)
logto pass = client-RunsLogto http config alone pass (λ w. w) (http-IsRemote pass)

-- a registration, a setup by the user "id", and the question who that is
abbrev calls : List (Ctx × AccountRequest)
calls = (background, register form) ∷ (signed_in, set_up profile) ∷ (signed_in, who_am_i) ∷ []

abbrev start : Shared Users
start = (none, new_user "ana" ∷ [])

serve_all-Trace_example :
    Trace
      (new_user "ana" ∷ [])
      (serve_all ascii
        (user_repository db)
        (logto_creator http config alone)
        (logto_updater http config alone)
        calls
        start).0
      (table none
        (serve_all ascii
          (user_repository db)
          (logto_creator http config alone)
          (logto_updater http config alone)
          calls
          start).1)
serve_all-Trace_example =
    serve_all-Trace ascii db db-HasPgCodes (logto_creator http config alone)
      (logto_updater http config alone) table db-RunsUsers (logto ≡-IsPassage) calls start
      (refl, (refl, (refl, tt)))
