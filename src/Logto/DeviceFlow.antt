-- ===== src/Logto/DeviceFlow.antt =====
-- internal/gateways/logto/device_flow.go: the requests of the device authorization grant. They
-- carry the client ID of the native app and no access token.
use finsplitter.Base.{
  String, ◌==◌, ◌+++◌, true, false, none, List, [], ◌∷◌, eqb, Bool, if◌then◌else◌,
}
use finsplitter.Effects.{Action, pure, fail, catch}
use finsplitter.Errs.{
  Error, sentinel, plain, wrap, prefixed, status_error, app_client_not_configured,
  device_code_pending, device_code_expired, device_code_access_denied, device_token_revoked,
}
use finsplitter.Logto.{DeviceCodeResponse, DeviceTokenResponse, LogtoDeviceFlowClient}
use finsplitter.Logto.Http.{HttpRequest, HttpResponse, HttpClient, text_field, int_field}
use finsplitter.Logto.Client.{Config}

abbrev pub device_code_of : HttpResponse → DeviceCodeResponse
device_code_of r = record {
  device_code = text_field r "device_code";
  user_code = text_field r "user_code";
  verification_uri = text_field r "verification_uri";
  verification_uri_complete = text_field r "verification_uri_complete";
  expires_in = int_field r "expires_in";
  interval = int_field r "interval";
}

abbrev pub device_token_of : HttpResponse → DeviceTokenResponse
device_token_of r = record {
  access_token = text_field r "access_token";
  id_token = text_field r "id_token";
  refresh_token = text_field r "refresh_token";
  expires_in = int_field r "expires_in";
}

abbrev pub form_post : String → List (String × String) → Bool → HttpRequest
form_post url form result_error = record {
  method = "POST";
  url = url;
  auth_token = none;
  form = form;
  json = [];
  result = true;
  result_error = result_error;
}

-- The switch of PollDeviceToken on the field "error" of a 400
unfoldable pub poll_error : String → Error
poll_error text =
    if text == "authorization_pending"
    then sentinel device_code_pending
    else if text == "slow_down"
    then sentinel device_code_pending
    else if text == "expired_token"
    then sentinel device_code_expired
    else if text == "access_denied"
    then sentinel device_code_access_denied
    else plain ("poll device token: " +++ text)

-- The switch of RefreshDeviceToken
unfoldable pub refresh_error : String → Error
refresh_error text =
    if text == "invalid_grant"
    then sentinel device_code_expired
    else plain ("refresh device token: " +++ text)

abbrev pub poll_request : Config → String → HttpRequest
poll_request cfg device_code =
    form_post (cfg.oidc_endpoint +++ "/token")
      (("client_id", cfg.device_app_client_id)
        ∷ ("grant_type", "urn:ietf:params:oauth:grant-type:device_code")
        ∷ ("device_code", device_code)
        ∷ [])
      true

abbrev pub refresh_request : Config → String → HttpRequest
refresh_request cfg refresh_token =
    form_post (cfg.oidc_endpoint +++ "/token")
      (("client_id", cfg.device_app_client_id)
        ∷ ("grant_type", "refresh_token")
        ∷ ("refresh_token", refresh_token)
        ∷ [])
      true

abbrev pub revoke_request : Config → String → HttpRequest
revoke_request cfg refresh_token =
    form_post (cfg.oidc_endpoint +++ "/token/revocation")
      (("client_id", cfg.device_app_client_id)
        ∷ ("token", refresh_token)
        ∷ ("token_type_hint", "refresh_token")
        ∷ [])
      true

module _ {W : Type 0} (http : HttpClient W) (cfg : Config) where
  -- RequestDeviceCode
  unfoldable pub request_device_code : Action W Error DeviceCodeResponse
  request_device_code =
      if cfg.device_app_client_id == ""
      then fail (prefixed "request device code" (sentinel app_client_not_configured))
      else catch
          (http.send (
            form_post (cfg.oidc_endpoint +++ "/device/auth")
              (("client_id", cfg.device_app_client_id)
                ∷ ("scope", "openid profile email offline_access")
                ∷ [])
              false))
          (λ r.
            if eqb r.status 200
            then pure (device_code_of r)
            else fail (status_error "request device code" r.status))
          (λ e. fail (prefixed "request device code" e))

  -- PollDeviceToken
  unfoldable pub poll_device_token : String → Action W Error DeviceTokenResponse
  unfolding poll_error
  poll_device_token device_code =
      if cfg.device_app_client_id == ""
      then fail (prefixed "poll device token" (sentinel app_client_not_configured))
      else catch (http.send (poll_request cfg device_code))
          (λ r.
            if eqb r.status 200
            then pure (device_token_of r)
            else if eqb r.status 400
            then fail (poll_error (text_field r "error"))
            else fail (status_error "poll device token" r.status))
          (λ e. fail (prefixed "poll device token" e))

  -- RefreshDeviceToken
  unfoldable pub refresh_device_token : String → Action W Error DeviceTokenResponse
  unfolding refresh_error
  refresh_device_token refresh_token =
      if cfg.device_app_client_id == ""
      then fail (prefixed "refresh device token" (sentinel app_client_not_configured))
      else catch (http.send (refresh_request cfg refresh_token))
          (λ r.
            if eqb r.status 200
            then pure (device_token_of r)
            else fail (refresh_error (text_field r "error")))
          (λ e. fail (prefixed "refresh device token" e))

  -- RevokeDeviceToken
  unfoldable pub revoke_device_token : String → Action W Error (Unit {0})
  revoke_device_token refresh_token =
      if cfg.device_app_client_id == ""
      then fail (prefixed "revoke device token" (sentinel app_client_not_configured))
      else catch (http.send (revoke_request cfg refresh_token))
          (λ r.
            if eqb r.status 200
            then pure tt
            else fail (
                wrap "revoke device token: " (sentinel device_token_revoked)
                  (": " +++ text_field r "error")))
          (λ e. fail (prefixed "revoke device token" e))

  -- The client, as the device use cases see it
  unfoldable pub device_flow_client : LogtoDeviceFlowClient W
  unfolding request_device_code poll_device_token refresh_device_token revoke_device_token
  device_flow_client = record {
    request_device_code = request_device_code;
    poll_device_token = poll_device_token;
    refresh_device_token = refresh_device_token;
    revoke_device_token = revoke_device_token;
  }
