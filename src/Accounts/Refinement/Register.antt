-- ===== src/Accounts/Refinement/Register.antt =====
-- POST /auth/register
use finsplitter.Base.{◌≡◌, none, arith, Bool-cases, inl, inr}
use finsplitter.Effects.{Result, ok, err, panic}
use finsplitter.Errs.{Error, is, user_exists, email_already_in_use}
use finsplitter.Domain.{uuid_string}
use finsplitter.Domain.Context.{Ctx}
use finsplitter.Http.{HttpError, http_error}
use finsplitter.Strings.{Unicode}
use finsplitter.Postgres.Driver.{Database, HasPgCodes}
use finsplitter.Postgres.User.{user_repository, new_user_from_row}
use finsplitter.Logto.{LogtoUserCreator, LogtoUserUpdater, CreateUserResponse}
use finsplitter.Accounts.UseCases.{RegisterInput, chosen_username}
use finsplitter.Accounts.Handlers.{post_register, registered_body}
use finsplitter.Accounts.Spec as Spec
use finsplitter.Accounts.Spec.{register, message, name_taken, email_taken, failed, IsRefusal}
use finsplitter.Accounts.Refinement.{IsReturned, RunsLogto, IsServed, serve}
use finsplitter.Accounts.Refinement.Repository.{create_cases, created, refused}
use finsplitter.Base.{◌∷◌}
use finsplitter.Postgres.UserTable.Shared.{RunsAmid}
use finsplitter.Traces.{IsPassage}
use finsplitter.Accounts.Spec.{Users}

module _ {W : Type 0} (u : Unicode) (db : Database W) (codes : HasPgCodes db)
    (creator : LogtoUserCreator W) (updater : LogtoUserUpdater W) {amid : Users → Users → Type 0}
    (pass : IsPassage amid) (seen : W → Users) (runs : RunsAmid db amid seen)
    (logto : RunsLogto amid seen creator updater) (ctx : Ctx) (outside : ctx.tx ≡ none) (w : W)
    (input : RegisterInput) where
  refused-IsServed :
      (v : W) (e : HttpError)
      → IsRefusal e
      → serve u (user_repository db) creator updater ctx (register input) w ≡ (err e, v)
      → amid (seen w) (seen v)
      → IsServed u (user_repository db) creator updater amid seen ctx (register input) w
  refused-IsServed v e reason q goes = record {
    reply = err e;
    after = v;
    rows = seen w;
    table = seen w;
    serves = q;
    comes = pass.nothing (seen w);
    steps = Spec.registers_refused ctx.claims input e reason;
    leaves = goes;
  }

  -- once the identity provider has answered
  created-IsServed :
      (r : Result Error CreateUserResponse) (v : W)
      → creator.create_user (chosen_username u input) "" input.name input.email w ≡ (r, v)
      → IsReturned r
      → amid (seen w) (seen v)
      → IsServed u (user_repository db) creator updater amid seen ctx (register input) w
  unfolding serve post_register new_user_from_row
  created-IsServed (ok user) v q returned goes =
      elim (create_cases db codes amid seen runs ctx outside user.id v) [
        | created row x rows linked fresh s inserts leaves ↦ record {
          reply = ok (message (registered_body (uuid_string row.id)));
          after = x;
          rows = rows;
          table = row ∷ rows;
          serves = ground arith;
          comes = pass.both goes inserts;
          steps = Spec.registers ctx.claims input user.id row linked fresh;
          leaves = leaves;
        }
        | refused row x rows there s inserts leaves ↦ record {
          reply = err (http_error 409 "user already registered");
          after = x;
          rows = rows;
          table = rows;
          serves = ground arith;
          comes = pass.both goes inserts;
          steps = Spec.registers_linked ctx.claims input user.id row there;
          leaves = leaves;
        }
      ]
  created-IsServed (err e) v q foreign goes = elim (Bool-cases (is e user_exists)) [
    | inl taken ↦ refused-IsServed v _ name_taken (ground arith) goes
    | inr free ↦ elim (Bool-cases (is e email_already_in_use)) [
      | inl used ↦ refused-IsServed v _ email_taken (ground arith) goes
      | inr unused ↦ refused-IsServed v _ failed (ground (arith, foreign)) goes
    ]
  ]
  created-IsServed (panic _) v q returned goes = absurd returned

  pub register-IsServed :
      IsServed u (user_repository db) creator updater amid seen ctx (register input) w
  register-IsServed =
      let m = logto.creates (chosen_username u input) "" input.name input.email w in
      created-IsServed m.result m.after m.runs m.returned m.apart
