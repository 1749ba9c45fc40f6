-- ===== src/Accounts/Refinement/Remote.antt =====
-- The cached access token of the Logto client, and what is used of the requests behind it.
use finsplitter.Traces.{IsPassage}
use finsplitter.Accounts.Spec.{Users}
use finsplitter.Base.{
  ◌≡◌, refl, ◌+++◌, Option, some, arith, leb, Bool-cases, Option-cases, inl, inr,
}
use finsplitter.Base.Int.{pos, ◌+ℤ◌}
use finsplitter.Base.{decimal}
use finsplitter.Effects.{Result, ok, err, panic}
use finsplitter.Errs.{Error, sentinel, wrap, m2m_unauthorized, prefixed}
use finsplitter.Logto.Http.{HttpResponse, HttpClient, HttpRequest, text_field, int_field}
use finsplitter.Logto.Client.{
  token_lifetime, Config, CachedToken, Shared, outside, usable_token, token_request, fetch_token,
  locked_get_token, get_token,
}
use finsplitter.Accounts.Refinement.{IsReturned, IsApart}

-- the table, whatever token the client holds
abbrev pub sees : {V : Type 0} → (V → Users) → Shared V → Users
sees seen (token, v) = seen v

module _ {V : Type 0} (http : HttpClient V) (cfg : Config) (waits : Shared V → Shared V)
    {amid : Users → Users → Type 0} (pass : IsPassage amid) (seen : V → Users) where
  -- What is used of resty, and of the other users of the client: a request returns, with a response
  -- or with an error that is none of the domain's, and the table is left alone.
  pub record IsRemote : Type 0 where
    pub sends : (request : HttpRequest) (v : V) → IsApart amid seen (http.send request) v
    pub waiting : (s : Shared V) → amid (sees seen s) (sees seen (waits s))

  module _ (remote : IsRemote) where
    pub send-IsApart :
        (request : HttpRequest) (s : Shared V)
        → IsApart amid (sees seen) (outside (http.send request)) s
    send-IsApart request (token, v) =
        let m = remote.sends request v in
        record {
          result = m.result;
          after = (token, m.after);
          runs = rw m.runs refl;
          returned = m.returned;
          apart = m.apart;
        }

    fetched-IsApart :
        (r : Result Error HttpResponse) (token : Option CachedToken) (v v' : V)
        → http.send (token_request cfg) v ≡ (r, v')
        → IsReturned r
        → amid (seen v) (seen v')
        → IsApart amid (sees seen) (fetch_token http cfg) (token, v)
    unfolding fetch_token
    fetched-IsApart (ok response) token v v' q returned same =
        elim (Bool-cases (leb 400 response.status)) [
          | inl bad ↦ record {
            result =
                err (wrap "" (sentinel m2m_unauthorized) (": status " +++ decimal response.status));
            after = (token, v');
            runs = ground arith;
            returned = record {
              not_duplicate = refl;
              not_invalid_input = refl;
              not_username_taken = refl;
              not_user_already_exists = refl;
            };
            apart = same;
          }
          | inr good ↦ record {
            result = ok (text_field response "access_token");
            after = (
              some (record {
                access_token = text_field response "access_token";
                expires_at = pos (http.now v') +ℤ token_lifetime (int_field response "expires_in");
              }),
              v',
            );
            runs = ground arith;
            returned = tt;
            apart = same;
          }
        ]
    fetched-IsApart (err e) token v v' q foreign same = record {
      result = err (prefixed "fetch m2m token" e);
      after = (token, v');
      runs = ground arith;
      returned = record {
        not_duplicate = foreign.not_duplicate;
        not_invalid_input = foreign.not_invalid_input;
        not_username_taken = foreign.not_username_taken;
        not_user_already_exists = foreign.not_user_already_exists;
      };
      apart = same;
    }
    fetched-IsApart (panic _) token v v' q returned same = absurd returned

    locked-IsApart : (s : Shared V) → IsApart amid (sees seen) (locked_get_token http cfg) s
    unfolding locked_get_token
    locked-IsApart (token, v) = elim (Option-cases (usable_token token (http.now v))) [
      | inl unusable ↦
          let m = remote.sends (token_request cfg) v in
          let f = fetched-IsApart m.result token v m.after m.runs m.returned m.apart in
          record {
            result = f.result;
            after = f.after;
            runs = rw (locked_get_token, unusable) f.runs;
            returned = f.returned;
            apart = f.apart;
          }
      | inr (t, usable) ↦ record {
        result = ok t;
        after = (token, v);
        runs = rw (locked_get_token, usable) refl;
        returned = tt;
        apart = pass.nothing (seen v);
      }
    ]

    pub get_token-IsApart : (s : Shared V) → IsApart amid (sees seen) (get_token http cfg waits) s
    unfolding get_token
    get_token-IsApart (token, v) = elim (Option-cases (usable_token token (http.now v))) [
      | inl unusable ↦
          let f = locked-IsApart (waits (token, v)) in
          record {
            result = f.result;
            after = f.after;
            runs = rw (get_token, unusable) f.runs;
            returned = f.returned;
            apart = pass.both (remote.waiting (token, v)) f.apart;
          }
      | inr (t, usable) ↦ record {
        result = ok t;
        after = (token, v);
        runs = rw (get_token, usable) refl;
        returned = tt;
        apart = pass.nothing (seen v);
      }
    ]
