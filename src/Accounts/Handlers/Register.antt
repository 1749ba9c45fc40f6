-- ===== src/Accounts/Handlers/Register.antt =====
-- POST /auth/register
use finsplitter.Base.{String, ◌≡◌, ◌≢◌, ◌⊎◌, true, arith}
use finsplitter.Effects.{ok, err, panic, Action}
use finsplitter.Effects.Laws.{run_cases, returns, fails, panics}
use finsplitter.Errs.{Error, is, user_exists, email_already_in_use}
use finsplitter.Domain.{User, uuid_string}
use finsplitter.Domain.Context.{Ctx}
use finsplitter.Http.{HttpError}
use finsplitter.Ports.{UserRepository}
use finsplitter.Strings.{Unicode}
use finsplitter.Logto.{LogtoUserCreator, CreateUserResponse}
use finsplitter.Accounts.UseCases.{RegisterInput, chosen_username}
use finsplitter.Accounts.Handlers.{MessageBody, post_register}

module _ {W : Type 0} (u : Unicode) (users : UserRepository W) (logto : LogtoUserCreator W)
    (ctx : Ctx) where
  abbrev created : RegisterInput → Action W Error CreateUserResponse
  created body = logto.create_user (chosen_username u body) "" body.name body.email

  -- The steps of a successful registration, in their order.
  pub record IsRegistered (body : RegisterInput) (w : W) (reply : MessageBody) (w' : W)
      : Type 0 where
    pub logto_user : CreateUserResponse
    pub user : User
    pub created : W
    pub creates :
        logto.create_user (chosen_username u body) "" body.name body.email w
        ≡ (ok logto_user, created)
    pub links : users.create ctx logto_user.id created ≡ (ok user, w')
    pub replies : reply.user_id ≡ uuid_string user.id

  -- POST /auth/register succeeds only after Logto has created a user without a password, under the
  -- given username or the slug of the name, and after that a local user has been linked to it; the
  -- response carries the local user's ID.
  pub post_register-IsRegistered :
      (body : RegisterInput) (w w' : W) (reply : MessageBody)
      → post_register u users logto ctx body w ≡ (ok reply, w')
      → IsRegistered body w reply w'
  unfolding post_register
  post_register-IsRegistered body w w' reply h =
      elim (run_cases (logto.create_user (chosen_username u body) "" body.name body.email w)) [
        | returns a v e ↦ elim (run_cases (users.create ctx a.id v)) [
          | returns user x q ↦ record {
            logto_user = a;
            user = user;
            created = v;
            creates = ground arith;
            links = ground arith;
            replies = ground arith;
          }
          | fails z x q ↦ absurd (ground arith)
          | panics z x q ↦ absurd (ground arith)
        ]
        | fails z v e ↦ absurd (ground arith)
        | panics z v e ↦ absurd (ground arith)
      ]

  -- What is used of Logto's usernames: a user that was created holds its username, if that is not
  -- empty; a further user with a username that is held is refused, with one of the two errors for a
  -- user who exists; and the table of users has no part in this.
  pub record TakesNames (holds : String → W → Type 0) : Type 0 where
    pub created_holds :
        (username password name email : String) (w v : W) (user : CreateUserResponse)
        → username ≢ ""
        → logto.create_user username password name email w ≡ (ok user, v)
        → holds username v
    pub held_refuses :
        (username password name email : String) (w : W)
        → holds username w
        → (f : Error) × (v : W) × (logto.create_user username password name email w ≡ (err f, v))
          × ((is f user_exists ≡ true) ⊎ (is f email_already_in_use ≡ true))
    pub table_keeps :
        (username logto_id : String) (w : W)
        → holds username w
        → holds username (users.create ctx logto_id w).1

  -- Logto has made no user for the registration, and `v` is the state that its call has left.
  pub data IsUncreated (body : RegisterInput) (w v : W) : Type 0 where
    refused :
        (f : Error)
        → logto.create_user (chosen_username u body) "" body.name body.email w ≡ (err f, v)
        → IsUncreated body w v
    broken :
        (p : String)
        → logto.create_user (chosen_username u body) "" body.name body.email w ≡ (panic p, v)
        → IsUncreated body w v

  -- The answer to a registration is a 409, and no local record was tried: the state is the one that
  -- Logto's call has left.
  abbrev pub IsTurnedDown : RegisterInput → W → Type 0
  IsTurnedDown body w =
      (e : HttpError) × (post_register u users logto ctx body w
        ≡ (err e, (logto.create_user (chosen_username u body) "" body.name body.email w).1))
      × (e.status ≡ 409)
