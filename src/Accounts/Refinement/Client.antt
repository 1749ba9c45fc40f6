-- ===== src/Accounts/Refinement/Client.antt =====
-- internal/gateways/logto/m2m_client.go as the Logto client of the accounts.
use finsplitter.Traces.{IsPassage}
use finsplitter.Accounts.Spec.{Users}
use finsplitter.Base.{String, refl, ◌+++◌, eqb, ◌||◌}
use finsplitter.Effects.{fail}
use finsplitter.Errs.{
  Error, sentinel, wrap, status_error, user_not_found, user_exists, email_already_in_use,
  m2m_unauthorized, prefixed,
}
use finsplitter.Logto.{LogtoUserCreator, LogtoUserUpdater}
use finsplitter.Logto.Http.{HttpResponse, HttpClient}
use finsplitter.Logto.Client.{
  Config, Shared, outside, get_token, create_user, update_user, created_user, updated_user,
  create_user_request, update_user_request,
}
use finsplitter.Accounts.Refinement.{IsForeign, IsApart, RunsLogto}
use finsplitter.Accounts.Refinement.Apart.{catch-IsApart, fail-IsApart, pure-IsApart, if-IsApart}
use finsplitter.Accounts.Refinement.Remote.{sees, IsRemote, send-IsApart, get_token-IsApart}

module _ {V : Type 0} (http : HttpClient V) (cfg : Config) (waits : Shared V → Shared V) where
  -- CreateUser and UpdateUser of the client
  abbrev pub logto_creator : LogtoUserCreator (Shared V)
  logto_creator = record { create_user = create_user http cfg waits }

  abbrev pub logto_updater : LogtoUserUpdater (Shared V)
  logto_updater = record { update_user = update_user http cfg waits }

module _ {V : Type 0} (http : HttpClient V) (cfg : Config) (waits : Shared V → Shared V)
    {amid : Users → Users → Type 0} (pass : IsPassage amid) (seen : V → Users) where
  module _ (remote : IsRemote http cfg waits pass seen) where
    created_user-IsApart :
        (r : HttpResponse) (s : Shared V) → IsApart amid (sees seen) (created_user r) s
    unfolding created_user
    created_user-IsApart r s =
        if-IsApart pass (sees seen) (eqb r.status 200 || eqb r.status 201) s
          (pure-IsApart pass (sees seen) _ s)
          (if-IsApart pass (sees seen) (eqb r.status 409) s
            (fail-IsApart pass (sees seen) (sentinel user_exists) s refl refl refl refl)
            (if-IsApart pass (sees seen) (eqb r.status 422) s
              (fail-IsApart pass (sees seen) (sentinel email_already_in_use) s refl refl refl refl)
              (if-IsApart pass (sees seen) (eqb r.status 401) s
                (fail-IsApart pass (sees seen) (sentinel m2m_unauthorized) s refl refl refl refl)
                (fail-IsApart pass (sees seen) (status_error "create user" r.status) s refl refl
                  refl refl))))

    updated_user-IsApart :
        (id : String) (r : HttpResponse) (s : Shared V)
        → IsApart amid (sees seen) (updated_user id r) s
    unfolding updated_user
    updated_user-IsApart id r s =
        if-IsApart pass (sees seen) (eqb r.status 200 || eqb r.status 204) s
          (pure-IsApart pass (sees seen) tt s)
          (if-IsApart pass (sees seen) (eqb r.status 404) s
            (fail-IsApart pass (sees seen) (wrap "" (sentinel user_not_found) (": user " +++ id)) s
              refl refl refl refl)
            (if-IsApart pass (sees seen) (eqb r.status 401) s
              (fail-IsApart pass (sees seen) (sentinel m2m_unauthorized) s refl refl refl refl)
              (fail-IsApart pass (sees seen) (status_error "update user" r.status) s refl refl refl
                refl)))

    failed-IsApart :
        {A : Type 0} (e : Error) (s : Shared V)
        → IsForeign e
        → IsApart amid (sees seen) {A = A} (fail e) s
    failed-IsApart e s h =
        fail-IsApart pass (sees seen) e s h.not_duplicate h.not_invalid_input h.not_username_taken
          h.not_user_already_exists

    wrapped-IsApart :
        {A : Type 0} (before : String) (e : Error) (s : Shared V)
        → IsForeign e
        → IsApart amid (sees seen) {A = A} (fail (prefixed before e)) s
    wrapped-IsApart before e s h =
        fail-IsApart pass (sees seen) (prefixed before e) s h.not_duplicate h.not_invalid_input
          h.not_username_taken h.not_user_already_exists

    create_user-IsApart :
        (username password name email : String) (s : Shared V)
        → IsApart amid (sees seen) (create_user http cfg waits username password name email) s
    unfolding create_user
    create_user-IsApart username password name email s =
        catch-IsApart pass (sees seen) (get_token http cfg waits) _ fail s
          (get_token-IsApart http cfg waits pass seen remote s)
          (λ token v.
            let request = create_user_request token username password name email in
            catch-IsApart pass (sees seen) (outside (http.send request)) created_user
              (λ e. fail (prefixed "create user request" e)) v
              (send-IsApart http cfg waits pass seen remote request v) created_user-IsApart
              (λ e x h. wrapped-IsApart "create user request" e x h))
          (λ e v h. failed-IsApart e v h)

    update_user-IsApart :
        (id username name phone picture : String) (s : Shared V)
        → IsApart amid (sees seen) (update_user http cfg waits id username name phone picture) s
    unfolding update_user
    update_user-IsApart id username name phone picture s =
        catch-IsApart pass (sees seen) (get_token http cfg waits) _ fail s
          (get_token-IsApart http cfg waits pass seen remote s)
          (λ token v.
            let request = update_user_request token id username name phone picture in
            catch-IsApart pass (sees seen) (outside (http.send request)) (updated_user id)
              (λ e. fail (prefixed "update user request" e)) v
              (send-IsApart http cfg waits pass seen remote request v) (updated_user-IsApart id)
              (λ e x h. wrapped-IsApart "update user request" e x h))
          (λ e v h. failed-IsApart e v h)

  -- Over an HTTP client whose requests return, the calls of the Logto client return, and their
  -- errors are none of those that the handlers tell apart by a sentinel of the domain.
  pub client-RunsLogto :
      IsRemote http cfg waits pass seen
      → RunsLogto amid (sees seen) (logto_creator http cfg waits) (logto_updater http cfg waits)
  client-RunsLogto remote = record {
    creates = create_user-IsApart remote;
    updates = update_user-IsApart remote;
  }
