-- ===== src/Accounts/UseCases.antt =====
-- internal/app/usecases/auth/register.go and me.go, and internal/app/usecases/profile/setup.go
use finsplitter.Base.{String, ◌==◌, Bool, true, false, if◌then◌else◌}
use finsplitter.Effects.{Action, pure, fail, catch}
use finsplitter.Errs.{
  Error, sentinel, is, prefixed, not_found, duplicate, invalid_input, user_already_exists,
  username_taken, user_exists, email_already_in_use,
}
use finsplitter.Domain.{uuid_string}
use finsplitter.Domain.Context.{Ctx}
use finsplitter.Ports.{UserRepository}
use finsplitter.Strings.{Unicode}
use finsplitter.Logto.{LogtoUserCreator, LogtoUserUpdater}
use finsplitter.Accounts.Slug.{slugify}

pub record RegisterInput : Type 0 where
  pub name : String
  pub email : String
  pub username : String

pub record RegisterOutput : Type 0 where
  pub user_id : String
  pub logto_user_id : String

pub record MeOutput : Type 0 where
  pub id : String
  pub needs_setup : Bool

pub record SetupInput : Type 0 where
  pub logto_user_id : String
  pub username : String
  pub name : String
  pub phone : String
  pub picture : String

abbrev pub chosen_username : Unicode → RegisterInput → String
chosen_username u input = if input.username == "" then slugify u input.name else input.username

abbrev pub create_user_error : Error → Error
create_user_error e =
    if is e user_exists
    then sentinel username_taken
    else if is e email_already_in_use
    then sentinel user_already_exists
    else prefixed "create logto user" e

abbrev pub register_create_error : Error → Error
register_create_error e =
    if is e duplicate then sentinel user_already_exists else prefixed "create finsplitter user" e

abbrev pub setup_create_error : Error → Error
setup_create_error e =
    if is e duplicate then sentinel duplicate else prefixed "create finsplitter user" e

module _ {W : Type 0} where
  -- RegisterUseCase.Execute; the password is empty, for a user without one
  unfoldable pub register :
      Unicode
      → UserRepository W
      → LogtoUserCreator W
      → Ctx
      → RegisterInput
      → Action W Error RegisterOutput
  register u users logto ctx input =
      catch (logto.create_user (chosen_username u input) "" input.name input.email)
        (λ logto_user.
          catch (users.create ctx logto_user.id)
            (λ user.
              pure (record { user_id = uuid_string user.id; logto_user_id = user.logto_user_id }))
            (λ e. fail (register_create_error e)))
        (λ e. fail (create_user_error e))

  -- MeUseCase.Execute
  unfoldable pub me : UserRepository W → Ctx → String → Action W Error MeOutput
  me users ctx logto_user_id =
      catch (users.get_by_logto_user_id ctx logto_user_id)
        (λ user. pure (record { id = uuid_string user.id; needs_setup = false }))
        (λ e.
          if is e not_found
          then pure (record { id = ""; needs_setup = true })
          else fail (prefixed "get user by logto id" e))

  -- the part of SetupUseCase.Execute that runs where no local user exists
  abbrev set_up_new :
      UserRepository W → LogtoUserUpdater W → Ctx → SetupInput → Action W Error String
  set_up_new users logto ctx input =
      catch
        (logto.update_user input.logto_user_id input.username input.name input.phone input.picture)
        (λ _.
          catch (users.create ctx input.logto_user_id) (λ user. pure (uuid_string user.id))
            (λ e. fail (setup_create_error e)))
        (λ e. fail (prefixed "update logto profile" e))

  -- SetupUseCase.Execute, with the user ID of the output
  unfoldable pub setup :
      UserRepository W → LogtoUserUpdater W → Ctx → SetupInput → Action W Error String
  setup users logto ctx input =
      if input.logto_user_id == ""
      then fail (sentinel invalid_input)
      else catch (users.exists_by_logto_user_id ctx input.logto_user_id)
          (λ exists. if exists then fail (sentinel duplicate) else set_up_new users logto ctx input)
          (λ e. fail (prefixed "check user existence" e))
