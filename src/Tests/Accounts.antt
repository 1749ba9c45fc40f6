-- ===== src/Tests/Accounts.antt =====
-- Registration and profile setup.
use Prim.Native.Char.{code}
use finsplitter.Base.{
  String, ◌==◌, ◌≡◌, ◌↔◌, refl, arith, eq_refl, Bool, true, ◌&&◌, leb, some, List, [], ◌∷◌, any,
  if◌then◌else◌,
}
use finsplitter.Effects.{ok, err}
use finsplitter.Errs.{sentinel, plain, not_found, user_exists}
use finsplitter.Domain.{User, UserClaims, uuid_string}
use finsplitter.Domain.Context.{Ctx, background}
use finsplitter.Ports.{UserRepository}
use finsplitter.Strings.{Unicode}
use finsplitter.Logto.{LogtoUserCreator, LogtoUserUpdater}
use finsplitter.Accounts.UseCases.{RegisterInput}
use finsplitter.Accounts.Handlers.{
  MessageBody, MeBody, SetupBody, me_body, post_register, get_me, patch_setup,
}
use finsplitter.Accounts.Handlers.Setup.{KeepsUsers, IsSetUp, patch_setup-IsSetUp}
use finsplitter.Accounts.Handlers.Me.{IsUnknown, needs_setup_iff}
use finsplitter.Accounts.Handlers.Register.{IsRegistered, post_register-IsRegistered}

-- The usernames in Logto, and the Logto IDs of the local users
abbrev pub World : Type 0
World = List String × List String

abbrev is_in : String → List String → Bool
is_in x xs = any (λ y. x == y) xs

abbrev user : String → User
user logto_id = record {
  id = 5;
  logto_user_id = logto_id;
  created_date = 1;
  last_modified_date = 1;
}

abbrev pub users : UserRepository World
users = record {
  create = λ ctx logto_id (names, ids). (ok (user logto_id), (names, logto_id ∷ ids));
  get_by_id = λ ctx id w. (err (sentinel not_found), w);
  get_by_logto_user_id = λ ctx logto_id (names, ids).
      ((if is_in logto_id ids then ok (user logto_id) else err (sentinel not_found)), (names, ids));
  exists_by_logto_user_id = λ ctx logto_id (names, ids). (ok (is_in logto_id ids), (names, ids));
}

-- the same with an INSERT that fails
abbrev broken_users : UserRepository World
broken_users = record users { create = λ ctx logto_id w. (err (plain "connection lost"), w) }

pub users-KeepsUsers : KeepsUsers users
users-KeepsUsers = record {
  create_get = λ ctx logto_id w w' u h. ground (arith, eq_refl logto_id);
  create_exists = λ ctx c logto_id w w' u same h. ground (arith, eq_refl logto_id);
}

abbrev creator : LogtoUserCreator World
creator = record {
  create_user = λ username password name email (names, ids).
      if is_in username names
      then (err (sentinel user_exists), (names, ids))
      else (ok (record { id = "id"; username = username }), (username ∷ names, ids));
}

abbrev pub updater : LogtoUserUpdater World
updater = record { update_user = λ id username name phone picture w. (ok tt, w) }

-- The lower-case ASCII letters and the ASCII digits, in a table without upper case
abbrev pub ascii : Unicode
ascii = record {
  to_lower = λ c. c;
  is_letter = λ c. leb 97 (code c) && leb (code c) 122;
  is_digit = λ c. leb 48 (code c) && leb (code c) 57;
}

abbrev pub nobody : World
nobody = ([], [])

abbrev pub form : RegisterInput
form = record { name = "Ana"; username = "ana"; email = "ana@example.com" }

abbrev pub claims : UserClaims
claims = record {
  sub = "id";
  username = "ana";
  email = "ana@example.com";
  name = "Ana";
  phone = "";
  picture = "";
}

abbrev pub signed_in : Ctx
signed_in = record background { claims = some claims }

abbrev pub profile : SetupBody
profile = record { username = "ana"; name = "Ana"; phone = "1"; picture = "" }

abbrev registered : MessageBody
registered = record {
  message = "Account created. Use POST /auth/device to receive a verification code.";
  user_id = uuid_string 5;
}

abbrev pub complete : MessageBody
complete = record {
  message = "Profile setup complete. Please re-authenticate to receive an updated JWT.";
  user_id = uuid_string 5;
}

post_register-IsRegistered_example :
    IsRegistered ascii users creator background form nobody registered ("ana" ∷ [], "id" ∷ [])
unfolding post_register
post_register-IsRegistered_example =
    post_register-IsRegistered ascii users creator background form nobody ("ana" ∷ [], "id" ∷ [])
      registered refl

abbrev pub set_up : World
set_up = ([], "id" ∷ [])

patch_setup-IsSetUp_example : IsSetUp users updater signed_in profile nobody complete set_up
unfolding patch_setup
patch_setup-IsSetUp_example =
    patch_setup-IsSetUp users updater signed_in profile nobody set_up complete refl

abbrev stranger : MeBody
stranger = me_body claims (record { id = ""; needs_setup = true })

needs_setup_iff_example : (stranger.needs_setup ≡ true) ↔ IsUnknown users signed_in nobody nobody
unfolding get_me
needs_setup_iff_example = needs_setup_iff users signed_in nobody nobody stranger refl
