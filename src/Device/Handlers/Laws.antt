-- ===== src/Device/Handlers/Laws.antt =====
-- The device flow from the answer of the identity provider, through its client and the use case, to
-- the response of the handler.
use finsplitter.Base.{
  String, ◌==◌, ◌≡◌, ◌≢◌, ap, ◌∙◌, eqb, eq_iff, arith, Bool-cases, inl, inr, if◌then◌else◌,
}
use finsplitter.Effects.{Result, ok, err}
use finsplitter.Strings.{trim_space}
use finsplitter.Http.{HttpError, http_error}
use finsplitter.Logto.{DeviceTokenResponse}
use finsplitter.Logto.Http.{HttpResponse, HttpClient, text_field}
use finsplitter.Logto.Client.{Config}
use finsplitter.Logto.DeviceFlow.{
  poll_error, refresh_error, request_device_code, poll_device_token, refresh_device_token,
  revoke_device_token, device_token_of, poll_request, refresh_request, revoke_request,
  device_flow_client,
}
use finsplitter.Device.UseCases as UseCases
use finsplitter.Device.Handlers.{
  device_auth_reply, device_poll_reply, device_refresh_reply, device_revoke_reply, device_auth,
  device_poll, device_refresh, device_revoke,
}

-- What the token endpoint answers to a poll.
pub data PollAnswer : Type 0 where
  signed_in pending slow_down expired denied other_error other_status : PollAnswer

abbrev IsBadRequest : HttpResponse → String → Type 0
IsBadRequest r text = (r.status ≡ 400) × (text_field r "error" ≡ text)

abbrev pub IsPollAnswer : PollAnswer → HttpResponse → Type 0
IsPollAnswer signed_in r = r.status ≡ 200
IsPollAnswer pending r = IsBadRequest r "authorization_pending"
IsPollAnswer slow_down r = IsBadRequest r "slow_down"
IsPollAnswer expired r = IsBadRequest r "expired_token"
IsPollAnswer denied r = IsBadRequest r "access_denied"
IsPollAnswer other_error r =
    (r.status ≡ 400)
    × (text_field r "error" ≢ "authorization_pending")
    × (text_field r "error" ≢ "slow_down")
    × (text_field r "error" ≢ "expired_token")
    × (text_field r "error" ≢ "access_denied")
IsPollAnswer other_status r = (r.status ≢ 200) × (r.status ≢ 400)

abbrev pub poll_result : PollAnswer → HttpResponse → Result HttpError DeviceTokenResponse
poll_result signed_in r = ok (device_token_of r)
poll_result pending r = err (http_error 401 "authorization pending")
poll_result slow_down r = err (http_error 401 "authorization pending")
poll_result expired r = err (http_error 400 "device code expired")
poll_result denied r = err (http_error 403 "authorization denied")
poll_result other_error r = err (http_error 500 "failed to poll device token")
poll_result other_status r = err (http_error 500 "failed to poll device token")

other_poll_reply :
    (text : String)
    → text ≢ "authorization_pending"
    → text ≢ "slow_down"
    → text ≢ "expired_token"
    → text ≢ "access_denied"
    → device_poll_reply (poll_error text) ≡ http_error 500 "failed to poll device token"
unfolding poll_error device_poll_reply
other_poll_reply text a b c d = ground (
  arith,
  eq_iff text "authorization_pending",
  eq_iff text "slow_down",
  eq_iff text "expired_token",
  eq_iff text "access_denied",
)

module _ {W : Type 0} (http : HttpClient W) (cfg : Config) (code : String) (w w' : W)
    (r : HttpResponse) (configured : cfg.device_app_client_id ≢ "") (given : trim_space code ≢ "")
    (sent : http.send (poll_request cfg code) w ≡ (ok r, w')) where
  abbrev bad_response : String → Result HttpError DeviceTokenResponse × W
  bad_response text = (err (device_poll_reply (poll_error text)), w')

  bad_poll :
      r.status ≡ 400
      → device_poll (device_flow_client http cfg) code w
        ≡ (err (device_poll_reply (poll_error (text_field r "error"))), w')
  unfolding device_poll device_flow_client poll_device_token UseCases.poll_device_token
  bad_poll h = ground (arith, eq_iff (trim_space code) "", eq_iff cfg.device_app_client_id "")

  -- POST /auth/device/poll, with a device code that is not blank and a configured device app: the
  -- response to each answer of the token endpoint is that of `poll_result`: the tokens on a 200, 401
  -- while the user has not signed in or the client polls too fast, 400 for an expired code, 403 if
  -- the user refused, and 500 for every other answer.
  pub device_poll-status :
      (a : PollAnswer)
      → IsPollAnswer a r
      → device_poll (device_flow_client http cfg) code w ≡ (poll_result a r, w')
  unfolding device_poll device_flow_client poll_device_token UseCases.poll_device_token
      device_poll_reply poll_error
  device_poll-status signed_in h =
      ground (arith, eq_iff (trim_space code) "", eq_iff cfg.device_app_client_id "")
  device_poll-status pending (h, k) = bad_poll h ∙ ap bad_response k
  device_poll-status slow_down (h, k) = bad_poll h ∙ ap bad_response k
  device_poll-status expired (h, k) = bad_poll h ∙ ap bad_response k
  device_poll-status denied (h, k) = bad_poll h ∙ ap bad_response k
  device_poll-status other_error (h, a, b, c, d) =
      bad_poll h ∙ ap (λ e. (err e, w')) (other_poll_reply (text_field r "error") a b c d)
  device_poll-status other_status h =
      ground (arith, eq_iff (trim_space code) "", eq_iff cfg.device_app_client_id "")

module _ {W : Type 0} (http : HttpClient W) (cfg : Config) (token : String) (w w' : W)
    (r : HttpResponse) (configured : cfg.device_app_client_id ≢ "")
    (given : trim_space token ≢ "") where
  -- POST /auth/device/refresh, with a refresh token that is not blank and a configured device app:
  -- the new tokens on a 200; on any other status, 400 if the error is "invalid_grant", else 500.
  pub device_refresh-status :
      http.send (refresh_request cfg token) w ≡ (ok r, w')
      → device_refresh (device_flow_client http cfg) token w ≡ (
        (if eqb r.status 200
            then ok (device_token_of r)
            else if text_field r "error" == "invalid_grant"
            then err (http_error 400 "refresh token expired or invalid")
            else err (http_error 500 "token refresh failed")),
        w',
      )
  unfolding device_refresh device_flow_client refresh_device_token UseCases.refresh_device_token
      device_refresh_reply refresh_error
  device_refresh-status s = elim (Bool-cases (text_field r "error" == "invalid_grant")) [
    | inl y ↦
        rw y (ground (arith, eq_iff (trim_space token) "", eq_iff cfg.device_app_client_id ""))
    | inr n ↦
        rw n (ground (arith, eq_iff (trim_space token) "", eq_iff cfg.device_app_client_id ""))
  ]

  -- POST /auth/device/revoke, with a refresh token that is not blank and a configured device app:
  -- success on a 200, and a 500 with the message "token revocation failed" on any other status.
  pub device_revoke-status :
      http.send (revoke_request cfg token) w ≡ (ok r, w')
      → device_revoke (device_flow_client http cfg) token w
        ≡ ((if eqb r.status 200 then ok tt else err (http_error 500 "token revocation failed")), w')
  unfolding device_revoke device_flow_client revoke_device_token UseCases.revoke_device_token
      device_revoke_reply
  device_revoke-status s =
      ground (arith, eq_iff (trim_space token) "", eq_iff cfg.device_app_client_id "")

-- Without a configured device app, a request with an input that is not blank is answered by a 500 on
-- each of the four device endpoints, with the message of the endpoint, and nothing is sent.
pub unconfigured_device_flow :
    {W : Type 0} (http : HttpClient W) (cfg : Config) (code : String) (w : W)
    → cfg.device_app_client_id ≡ ""
    → trim_space code ≢ ""
    → (device_auth (device_flow_client http cfg) code w
        ≡ (err (http_error 500 "failed to request device code"), w))
      × (device_poll (device_flow_client http cfg) code w
          ≡ (err (http_error 500 "failed to poll device token"), w))
      × (device_refresh (device_flow_client http cfg) code w
          ≡ (err (http_error 500 "token refresh failed"), w))
      × (device_revoke (device_flow_client http cfg) code w
          ≡ (err (http_error 500 "device auth not configured"), w))
unfolding device_flow_client device_auth UseCases.request_device_auth request_device_code
    device_poll UseCases.poll_device_token poll_device_token device_refresh
    UseCases.refresh_device_token refresh_device_token device_revoke UseCases.revoke_device_token
    revoke_device_token device_auth_reply device_poll_reply device_refresh_reply device_revoke_reply
unconfigured_device_flow http cfg code w c d = (
  ground (arith, eq_iff (trim_space code) "", eq_iff cfg.device_app_client_id ""),
  ground (arith, eq_iff (trim_space code) "", eq_iff cfg.device_app_client_id ""),
  ground (arith, eq_iff (trim_space code) "", eq_iff cfg.device_app_client_id ""),
  ground (arith, eq_iff (trim_space code) "", eq_iff cfg.device_app_client_id ""),
)
