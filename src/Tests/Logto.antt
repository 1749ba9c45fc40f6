-- ===== src/Tests/Logto.antt =====
-- The Logto client and the device flow.
use finsplitter.Base.{ℕ, ◌≡◌, ◌≢◌, refl, arith, eq_iff, none, some, [], ◌∷◌, ◌+◌, ◌*◌, ◌^◌, ◌<◌}
use finsplitter.Base.Int.{pos}
use finsplitter.Effects.{ok, err}
use finsplitter.Strings.{trim_space, is_space}
use finsplitter.Http.{http_error}
use finsplitter.Logto.Http.{HttpResponse, HttpClient}
use finsplitter.Logto.Client.{
  Config, CachedToken, Shared, usable_token, token_lifetime, fetch_token, locked_get_token,
  get_token,
}
use finsplitter.Logto.Client.Token.{IsHeld, get_token-IsHeld, get_token_again, usable_token-margin}
use finsplitter.Logto.DeviceFlow.{device_flow_client}
use finsplitter.Device.Handlers.{device_poll}
use finsplitter.Device.Handlers.Laws.{pending, device_poll-status}

-- An identity provider that always gives the same answer. The world is the clock, in seconds, and
-- each request takes one second.
abbrev answers : HttpResponse → HttpClient ℕ
answers r = record { send = λ request w. (ok r, w + 1); now = λ w. w * 10 ^ 9 }

abbrev token_response : HttpResponse
token_response = record {
  status = 200;
  texts = ("access_token", "t") ∷ [];
  numbers = ("expires_in", pos 3600) ∷ [];
}

abbrev pending_response : HttpResponse
pending_response = record {
  status = 400;
  texts = ("error", "authorization_pending") ∷ [];
  numbers = [];
}

abbrev config : Config
config = record {
  oidc_endpoint = "https://id.example.com/oidc";
  management_base_url = "https://id.example.com";
  management_api_resource = "";
  client_id = "m2m";
  client_secret = "secret";
  device_app_client_id = "app";
}

-- nobody else uses the client
abbrev alone : Shared ℕ → Shared ℕ
alone s = s

abbrev fetched_token : CachedToken
fetched_token = record { access_token = "t"; expires_at = pos 3641000000000 }

abbrev held : Shared ℕ
held = (some fetched_token, 101)

get_token-IsHeld_example : IsHeld (answers token_response) config "t" held
unfolding get_token locked_get_token fetch_token token_lifetime usable_token
get_token-IsHeld_example =
    get_token-IsHeld (answers token_response) config alone (none, 100) held "t" refl

get_token_again_example :
    get_token (answers token_response) config alone (held.0, 3000) ≡ (ok "t", (held.0, 3000))
unfolding get_token locked_get_token fetch_token token_lifetime usable_token
get_token_again_example =
    get_token_again (answers token_response) config alone (none, 100) held "t" "t" 3000 refl refl

usable_token-margin_example :
    (60 < 3600) × (3000 * 10 ^ 9 + 60 * 10 ^ 9 < 101 * 10 ^ 9 + 3600 * 10 ^ 9)
unfolding usable_token token_lifetime
usable_token-margin_example =
    usable_token-margin 3600 (101 * 10 ^ 9) (3000 * 10 ^ 9) "t" "t" (omega arith) (omega arith) refl

configured : config.device_app_client_id ≢ ""
configured = ground (arith, eq_iff "app" "")

given : trim_space "code" ≢ ""
unfolding trim_space is_space
given = ground (arith, eq_iff "code" "")

device_poll-status_example :
    device_poll (device_flow_client (answers pending_response) config) "code" 100
    ≡ (err (http_error 401 "authorization pending"), 101)
device_poll-status_example =
    device_poll-status (answers pending_response) config "code" 100 101 pending_response configured
      given refl pending (refl, refl)
