-- ===== src/Device/Handlers.antt =====
-- internal/gateways/http/v1/auth/device.go
pub mod Laws
use finsplitter.Base.{String, if◌then◌else◌}
use finsplitter.Effects.{Action, pure, fail, catch, map_err}
use finsplitter.Errs.{
  Error, is, invalid_input, device_code_pending, device_code_expired, device_code_access_denied,
  app_client_not_configured,
}
use finsplitter.Http.{HttpError, http_error}
use finsplitter.Logto.{DeviceCodeResponse, DeviceTokenResponse, LogtoDeviceFlowClient}
use finsplitter.Device.UseCases.{
  request_device_auth, poll_device_token, refresh_device_token, revoke_device_token,
}

unfoldable pub device_auth_reply : Error → HttpError
device_auth_reply e =
    if is e invalid_input
    then http_error 422 "email is required"
    else http_error 500 "failed to request device code"

unfoldable pub device_poll_reply : Error → HttpError
device_poll_reply e =
    if is e device_code_pending
    then http_error 401 "authorization pending"
    else if is e device_code_expired
    then http_error 400 "device code expired"
    else if is e device_code_access_denied
    then http_error 403 "authorization denied"
    else if is e invalid_input
    then http_error 422 "device code is required"
    else http_error 500 "failed to poll device token"

unfoldable pub device_refresh_reply : Error → HttpError
device_refresh_reply e =
    if is e invalid_input
    then http_error 422 "refresh_token is required"
    else if is e device_code_expired
    then http_error 400 "refresh token expired or invalid"
    else http_error 500 "token refresh failed"

unfoldable pub device_revoke_reply : Error → HttpError
device_revoke_reply e =
    if is e invalid_input
    then http_error 422 "refresh_token is required"
    else if is e app_client_not_configured
    then http_error 500 "device auth not configured"
    else http_error 500 "token revocation failed"

-- The response bodies have the fields of the use cases' outputs, copied one by one.
module _ {W : Type 0} (logto : LogtoDeviceFlowClient W) where
  -- POST /auth/device
  unfoldable pub device_auth : String → Action W HttpError DeviceCodeResponse
  unfolding device_auth_reply request_device_auth
  device_auth email = map_err device_auth_reply (request_device_auth logto email)

  -- POST /auth/device/poll
  unfoldable pub device_poll : String → Action W HttpError DeviceTokenResponse
  unfolding device_poll_reply poll_device_token
  device_poll device_code = map_err device_poll_reply (poll_device_token logto device_code)

  -- POST /auth/device/refresh
  unfoldable pub device_refresh : String → Action W HttpError DeviceTokenResponse
  unfolding device_refresh_reply refresh_device_token
  device_refresh refresh_token =
      map_err device_refresh_reply (refresh_device_token logto refresh_token)

  -- POST /auth/device/revoke
  unfoldable pub device_revoke : String → Action W HttpError (Unit {0})
  unfolding device_revoke_reply revoke_device_token
  device_revoke refresh_token =
      map_err device_revoke_reply (revoke_device_token logto refresh_token)
