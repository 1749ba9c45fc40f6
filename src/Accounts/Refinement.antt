-- ===== src/Accounts/Refinement.antt =====
-- The account API on a PostgreSQL server that is up, with the users of the identity provider behind
-- the Logto client, does what the specification says.
pub mod Repository
pub mod Setup
pub mod Register
pub mod Runs
pub mod Lasting
pub mod Apart
pub mod Remote
pub mod Client
use finsplitter.Base.{ℕ, String, ◌≡◌, false, Option, none, List}
use finsplitter.Effects.{Result, ok, err, panic, Action, pure, ◌>>=◌}
use finsplitter.Errs.{Error, is, duplicate, invalid_input, username_taken, user_already_exists}
use finsplitter.Domain.Context.{Ctx}
use finsplitter.Http.{HttpError}
use finsplitter.Ports.{UserRepository}
use finsplitter.Strings.{Unicode}
use finsplitter.Postgres.Driver.{UserRow}
use finsplitter.Logto.{LogtoUserCreator, LogtoUserUpdater, CreateUserResponse}
use finsplitter.Accounts.Handlers.{post_register, get_me, patch_setup}
use finsplitter.Accounts.Spec.{
  AccountRequest, register, who_am_i, set_up, AccountBody, message, about, Reply, Users, Step,
}

-- An error that wraps none of the sentinels of the domain that the handlers tell apart
pub record IsForeign (e : Error) : Type 0 where
  pub not_duplicate : is e duplicate ≡ false
  pub not_invalid_input : is e invalid_input ≡ false
  pub not_username_taken : is e username_taken ≡ false
  pub not_user_already_exists : is e user_already_exists ≡ false

-- The call has returned, with a value or with such an error.
abbrev pub IsReturned : {A : Type 0} → Result Error A → Type 0
IsReturned (ok _) = Unit {0}
IsReturned (err e) = IsForeign e
IsReturned (panic _) = ⊥

-- `seen` gives the rows of the table of users, which other connections change by `amid`.
module _ {W : Type 0} (amid : Users → Users → Type 0) (seen : W → Users) where
  -- A call that returns, and that itself leaves the table alone
  pub record IsApart {A : Type 0} (m : Action W Error A) (w : W) : Type 0 where
    pub result : Result Error A
    pub after : W
    pub runs : m w ≡ (result, after)
    pub returned : IsReturned result
    pub apart : amid (seen w) (seen after)

  -- What is used of the Logto client: its calls return, whatever the identity provider answers, and
  -- they do not reach the database.
  pub record RunsLogto (creator : LogtoUserCreator W) (updater : LogtoUserUpdater W) : Type 0 where
    pub creates :
        (username password name email : String) (w : W)
        → IsApart (creator.create_user username password name email) w
    pub updates :
        (id username name phone picture : String) (w : W)
        → IsApart (updater.update_user id username name phone picture) w

module _ {W : Type 0} (u : Unicode) (users : UserRepository W) (creator : LogtoUserCreator W)
    (updater : LogtoUserUpdater W) where
  -- The request, answered by its handler
  unfoldable pub serve : Ctx → AccountRequest → Action W HttpError AccountBody
  unfolding post_register get_me patch_setup
  serve ctx (register input) = post_register u users creator ctx input >>= λ b. pure (message b)
  serve ctx who_am_i = get_me users ctx >>= λ b. pure (about b)
  serve ctx (set_up body) = patch_setup users updater ctx body >>= λ b. pure (message b)

  -- The request is answered as the specification says, at one point in time: `rows` are the rows at
  -- that time, which other connections made of those at the start, and `table` becomes those at the
  -- end.
  pub record IsServed (amid : Users → Users → Type 0) (seen : W → Users) (ctx : Ctx)
      (request : AccountRequest) (w : W) : Type 0 where
    pub reply : Reply
    pub after : W
    pub rows : Users
    pub table : Users
    pub serves : serve ctx request w ≡ (reply, after)
    pub comes : amid (seen w) rows
    pub steps : Step rows (ctx.claims, request) reply table
    pub leaves : amid table (seen after)
