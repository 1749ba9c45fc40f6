-- ===== src/Accounts/Handlers/Setup.antt =====
-- Profile setup: what a success means, and what happens afterwards.
use finsplitter.Base.{
  String, ◌≡◌, refl, ◌≢◌, true, false, some, eq_iff, arith, inl, inr, Option-cases,
}
use finsplitter.Effects.{ok, err}
use finsplitter.Effects.Laws.{run_cases, returns, fails, panics}
use finsplitter.Domain.{User, UserClaims, uuid_string}
use finsplitter.Domain.Context.{Ctx}
use finsplitter.Http.{http_error}
use finsplitter.Ports.{UserRepository}
use finsplitter.Logto.{LogtoUserUpdater}
use finsplitter.Accounts.Handlers.{MessageBody, SetupBody, me_body, get_me, patch_setup}

-- What a user repository promises about the users that it has stored.
pub record KeepsUsers {W : Type 0} (users : UserRepository W) : Type 0 where
  pub create_get :
      (ctx : Ctx) (logto_id : String) (w w' : W) (user : User)
      → users.create ctx logto_id w ≡ (ok user, w')
      → users.get_by_logto_user_id ctx logto_id w' ≡ (ok user, w')
  pub create_exists :
      (ctx c : Ctx) (logto_id : String) (w w' : W) (user : User)
      → c.tx ≡ ctx.tx
      → users.create ctx logto_id w ≡ (ok user, w')
      → users.exists_by_logto_user_id c logto_id w' ≡ (ok true, w')

module _ {W : Type 0} (users : UserRepository W) (logto : LogtoUserUpdater W) (ctx : Ctx) where
  -- The steps of a successful setup, in their order.
  pub record IsSetUp (body : SetupBody) (w : W) (reply : MessageBody) (w' : W) : Type 0 where
    pub claims : UserClaims
    pub checked : W
    pub updated : W
    pub user : User
    pub signed_in : ctx.claims ≡ some claims
    pub has_sub : claims.sub ≢ ""
    pub was_new : users.exists_by_logto_user_id ctx claims.sub w ≡ (ok false, checked)
    pub updates :
        logto.update_user claims.sub body.username body.name body.phone body.picture checked
        ≡ (ok tt, updated)
    pub creates : users.create ctx claims.sub updated ≡ (ok user, w')
    pub replies : reply.user_id ≡ uuid_string user.id

  pub signed_in-IsSetUp :
      (claims : UserClaims) (body : SetupBody) (w w' : W) (reply : MessageBody)
      → ctx.claims ≡ some claims
      → patch_setup users logto ctx body w ≡ (ok reply, w')
      → IsSetUp body w reply w'
  unfolding patch_setup
  signed_in-IsSetUp claims body w w' reply c h =
      elim (run_cases (users.exists_by_logto_user_id ctx claims.sub w)) [
        | returns there v e ↦
            elim (run_cases
              (logto.update_user claims.sub body.username body.name body.phone body.picture v)) [
                | returns u x q ↦ elim (run_cases (users.create ctx claims.sub x)) [
                  | returns user y r ↦ record {
                    claims = claims;
                    checked = v;
                    updated = x;
                    user = user;
                    signed_in = c;
                    has_sub = ground (arith, eq_iff claims.sub "");
                    was_new = ground arith;
                    updates = ground arith;
                    creates = ground arith;
                    replies = ground arith;
                  }
                  | fails z y r ↦ absurd (ground arith)
                  | panics z y r ↦ absurd (ground arith)
                ]
                | fails z x q ↦ absurd (ground arith)
                | panics z x q ↦ absurd (ground arith)
              ]
        | fails z v e ↦ absurd (ground arith)
        | panics z v e ↦ absurd (ground arith)
      ]

  -- PATCH /profile/setup succeeds only for a signed-in user with a subject who had no local record,
  -- after the Logto profile was updated and, after that, the local record was created; the response
  -- carries the ID of that record.
  pub patch_setup-IsSetUp :
      (body : SetupBody) (w w' : W) (reply : MessageBody)
      → patch_setup users logto ctx body w ≡ (ok reply, w')
      → IsSetUp body w reply w'
  unfolding patch_setup
  patch_setup-IsSetUp body w w' reply h = elim (Option-cases ctx.claims) [
    | inl nobody ↦ absurd (ground arith)
    | inr (claims, c) ↦ signed_in-IsSetUp claims body w w' reply c h
  ]

  module _ (keeps : KeepsUsers users) where
    -- For a repository that finds the users that it has created: once a setup has succeeded for the
    -- claims of the request, GET /auth/me reports the same user ID, the names of the token, and
    -- that no setup is needed.
    setup_then_me :
        (body : SetupBody) (w w' : W) (reply : MessageBody) (claims : UserClaims)
        → ctx.claims ≡ some claims
        → patch_setup users logto ctx body w ≡ (ok reply, w')
        → get_me users ctx w'
          ≡ (ok (me_body claims (record { id = reply.user_id; needs_setup = false })), w')
    unfolding get_me
    setup_then_me body w w' reply claims c h =
        let s = signed_in-IsSetUp claims body w w' reply c h in
        let same : s.claims ≡ claims = ground (arith, s.signed_in, c) in
        let found : users.get_by_logto_user_id ctx claims.sub w' ≡ (ok s.user, w') =
          rw (← same) (keeps.create_get ctx s.claims.sub s.updated w' s.user s.creates) in
        ground (arith, found, s.replies)

    -- For a repository that finds the users that it has created: after a successful setup, a second
    -- one for the same token is answered by a 409, and it changes nothing.
    setup_twice :
        (body again : SetupBody) (w w' : W) (reply : MessageBody)
        → patch_setup users logto ctx body w ≡ (ok reply, w')
        → patch_setup users logto ctx again w' ≡ (err (http_error 409 "profile already set up"), w')
    unfolding patch_setup
    setup_twice body again w w' reply h =
        let s = patch_setup-IsSetUp body w w' reply h in
        let there = keeps.create_exists ctx ctx s.claims.sub s.updated w' s.user refl s.creates in
        ground (arith, s.signed_in, there, s.has_sub, eq_iff s.claims.sub "")
