-- ===== src/Device/UseCases.antt =====
-- internal/app/usecases/auth: device_auth.go, device_poll.go, device_refresh.go, device_revoke.go.
-- The outputs of these use cases have the fields of the Logto responses that the model keeps.
use finsplitter.Base.{String, ◌==◌, if◌then◌else◌}
use finsplitter.Effects.{Action, pure, fail, catch}
use finsplitter.Errs.{Error, sentinel, prefixed, invalid_input}
use finsplitter.Strings.{trim_space}
use finsplitter.Logto.{DeviceCodeResponse, DeviceTokenResponse, LogtoDeviceFlowClient}

module _ {W : Type 0} (logto : LogtoDeviceFlowClient W) where
  -- RequestDeviceAuthUseCase.Execute; the email is checked and goes no further
  unfoldable pub request_device_auth : String → Action W Error DeviceCodeResponse
  request_device_auth email =
      if trim_space email == ""
      then fail (sentinel invalid_input)
      else catch logto.request_device_code pure (λ e. fail (prefixed "request device code" e))

  -- PollDeviceTokenUseCase.Execute
  unfoldable pub poll_device_token : String → Action W Error DeviceTokenResponse
  poll_device_token device_code =
      if trim_space device_code == ""
      then fail (sentinel invalid_input)
      else catch (logto.poll_device_token device_code) pure fail

  -- RefreshDeviceTokenUseCase.Execute
  unfoldable pub refresh_device_token : String → Action W Error DeviceTokenResponse
  refresh_device_token refresh_token =
      if trim_space refresh_token == ""
      then fail (sentinel invalid_input)
      else catch (logto.refresh_device_token refresh_token) pure fail

  -- RevokeDeviceTokenUseCase.Execute
  unfoldable pub revoke_device_token : String → Action W Error (Unit {0})
  revoke_device_token refresh_token =
      if trim_space refresh_token == ""
      then fail (sentinel invalid_input)
      else logto.revoke_device_token refresh_token
