-- ===== src/Accounts/Refinement/Setup.antt =====
-- PATCH /profile/setup and GET /auth/me
use finsplitter.Base.{◌∷◌}
use finsplitter.Base.{
  ◌==◌, ◌≡◌, ◌≢◌, true, false, none, some, arith, eq_iff, Bool-cases, Option-cases, inl, inr,
}
use finsplitter.Effects.{Result, ok, err, panic}
use finsplitter.Errs.{Error}
use finsplitter.Domain.{UserClaims, uuid_string}
use finsplitter.Domain.Context.{Ctx}
use finsplitter.Http.{http_error}
use finsplitter.Strings.{Unicode}
use finsplitter.Postgres.Driver.{Database, HasPgCodes}
use finsplitter.Postgres.User.{user_repository, new_user_from_row}
use finsplitter.Postgres.UserTable.{find_logto}
use finsplitter.Postgres.UserTable.Shared.{RunsAmid}
use finsplitter.Traces.{IsPassage}
use finsplitter.Logto.{LogtoUserCreator, LogtoUserUpdater}
use finsplitter.Accounts.Handlers.{SetupBody, get_me, patch_setup, me_body, empty_me, set_up_body}
use finsplitter.Accounts.Spec as Spec
use finsplitter.Accounts.Spec.{Users, who_am_i, set_up, about, message}
use finsplitter.Accounts.Refinement.{IsReturned, RunsLogto, IsServed, serve}
use finsplitter.Accounts.Refinement.Repository.{
  create_cases, created, refused, get_cases, got, missed, exists_cases, known, unknown,
}

module _ {W : Type 0} (u : Unicode) (db : Database W) (codes : HasPgCodes db)
    (creator : LogtoUserCreator W) (updater : LogtoUserUpdater W) {amid : Users → Users → Type 0}
    (pass : IsPassage amid) (seen : W → Users) (runs : RunsAmid db amid seen)
    (logto : RunsLogto amid seen creator updater) (ctx : Ctx) (outside : ctx.tx ≡ none)
    (w : W) where
  pub me-IsServed : IsServed u (user_repository db) creator updater amid seen ctx who_am_i w
  unfolding serve get_me new_user_from_row
  me-IsServed = elim (Option-cases ctx.claims) [
    | inl nobody ↦ record {
      reply = ok (about empty_me);
      after = w;
      rows = seen w;
      table = seen w;
      serves = ground (arith, nobody);
      comes = pass.nothing (seen w);
      steps = rw nobody Spec.tells_nobody;
      leaves = pass.nothing (seen w);
    }
    | inr (claims, c) ↦ elim (get_cases db codes amid seen runs ctx outside claims.sub w) [
      | missed v rows absent q comes goes ↦ record {
        reply = ok (about (me_body claims (record { id = ""; needs_setup = true })));
        after = v;
        rows = rows;
        table = rows;
        serves = ground (arith, c, q);
        comes = comes;
        steps = rw c (Spec.tells_unknown claims absent);
        leaves = goes;
      }
      | got row v rows there q comes goes ↦ record {
        reply =
            ok (about (me_body claims (record { id = uuid_string row.id; needs_setup = false })));
        after = v;
        rows = rows;
        table = rows;
        serves = ground (arith, c, q);
        comes = comes;
        steps = rw c (Spec.tells claims row there);
        leaves = goes;
      }
    ]
  ]

  module _ (claims : UserClaims) (c : ctx.claims ≡ some claims) (named : claims.sub ≢ "")
      (body : SetupBody) where
    -- once the identity provider has answered
    updated-IsServed :
        (r : Result Error (Unit {0})) (v x : W) (rows : Users)
        → find_logto claims.sub rows ≡ none
        → (user_repository db).exists_by_logto_user_id ctx claims.sub w ≡ (ok false, v)
        → updater.update_user claims.sub body.username body.name body.phone body.picture v ≡ (r, x)
        → IsReturned r
        → amid (seen w) rows
        → amid rows (seen x)
        → IsServed u (user_repository db) creator updater amid seen ctx (set_up body) w
    unfolding serve patch_setup new_user_from_row
    updated-IsServed (ok _) v x rows absent missing q returned comes goes =
        elim (create_cases db codes amid seen runs ctx outside claims.sub x) [
          | created row y later linked fresh s inserts leaves ↦ record {
            reply = ok (message (set_up_body (uuid_string row.id)));
            after = y;
            rows = later;
            table = row ∷ later;
            serves = ground (arith, c, missing, named, eq_iff claims.sub "");
            comes = pass.both comes (pass.both goes inserts);
            steps = rw c (Spec.sets_up claims body row named fresh linked);
            leaves = leaves;
          }
          | refused row y later there s inserts leaves ↦ record {
            reply = err (http_error 409 "profile already set up");
            after = y;
            rows = later;
            table = later;
            serves = ground (arith, c, missing, named, eq_iff claims.sub "");
            comes = pass.both comes (pass.both goes inserts);
            steps = rw c (Spec.sets_up_known claims body row named there);
            leaves = leaves;
          }
        ]
    updated-IsServed (err e) v x rows absent missing q foreign comes goes = record {
      reply = err (http_error 500 "setup failed");
      after = x;
      rows = rows;
      table = rows;
      serves = ground (arith, c, missing, named, eq_iff claims.sub "", foreign);
      comes = comes;
      steps = rw c (Spec.sets_up_refused claims body named absent);
      leaves = goes;
    }
    updated-IsServed (panic _) v x rows absent missing q returned comes goes = absurd returned

    named-IsServed : IsServed u (user_repository db) creator updater amid seen ctx (set_up body) w
    unfolding serve patch_setup
    named-IsServed = elim (exists_cases db codes amid seen runs ctx outside claims.sub w) [
      | unknown v rows absent q comes goes ↦
          let m = logto.updates claims.sub body.username body.name body.phone body.picture v in
          updated-IsServed m.result v m.after rows absent q m.runs m.returned comes
            (pass.both goes m.apart)
      | known row v rows there q comes goes ↦ record {
        reply = err (http_error 409 "profile already set up");
        after = v;
        rows = rows;
        table = rows;
        serves = ground (arith, c, q, named, eq_iff claims.sub "");
        comes = comes;
        steps = rw c (Spec.sets_up_known claims body row named there);
        leaves = goes;
      }
    ]

  pub setup-IsServed :
      (body : SetupBody)
      → IsServed u (user_repository db) creator updater amid seen ctx (set_up body) w
  unfolding serve patch_setup
  setup-IsServed body = elim (Option-cases ctx.claims) [
    | inl nobody ↦ record {
      reply = err (http_error 401 "unauthenticated");
      after = w;
      rows = seen w;
      table = seen w;
      serves = ground (arith, nobody);
      comes = pass.nothing (seen w);
      steps = rw nobody (Spec.sets_up_nobody body);
      leaves = pass.nothing (seen w);
    }
    | inr (claims, c) ↦ elim (Bool-cases (claims.sub == "")) [
      | inl empty ↦ record {
        reply = err (http_error 422 "invalid input");
        after = w;
        rows = seen w;
        table = seen w;
        serves = ground (arith, c);
        comes = pass.nothing (seen w);
        steps = rw c (Spec.sets_up_nameless claims body (ground (arith, eq_iff claims.sub "")));
        leaves = pass.nothing (seen w);
      }
      | inr other ↦ named-IsServed claims c (ground (arith, eq_iff claims.sub "")) body
    ]
  ]
