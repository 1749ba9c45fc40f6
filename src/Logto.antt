-- ===== src/Logto.antt =====
-- internal/gateways/logto: the client of the identity provider, and the interfaces through which
-- the use cases call it (LogtoUserCreator, LogtoUserUpdater, LogtoDeviceFlowClient).
pub mod Http
pub mod Client
pub mod DeviceFlow
use finsplitter.Base.{String}
use finsplitter.Base.Int.{ℤ}
use finsplitter.Effects.{Action}
use finsplitter.Errs.{Error}

-- Each record holds the fields that the code reads.
pub record CreateUserResponse : Type 0 where
  pub id : String
  pub username : String

pub record DeviceCodeResponse : Type 0 where
  pub device_code : String
  pub user_code : String
  pub verification_uri : String
  pub verification_uri_complete : String
  pub expires_in : ℤ
  pub interval : ℤ

-- DeviceTokenResponse and DeviceTokenRefreshResponse have these fields in common, and the code
-- reads no others.
pub record DeviceTokenResponse : Type 0 where
  pub access_token : String
  pub id_token : String
  pub refresh_token : String
  pub expires_in : ℤ

-- username, password, name, email
pub record LogtoUserCreator (W : Type 0) : Type 0 where
  pub create_user : String → String → String → String → Action W Error CreateUserResponse

-- user ID, username, name, phone, picture
pub record LogtoUserUpdater (W : Type 0) : Type 0 where
  pub update_user : String → String → String → String → String → Action W Error (Unit {0})

pub record LogtoDeviceFlowClient (W : Type 0) : Type 0 where
  pub request_device_code : Action W Error DeviceCodeResponse
  pub poll_device_token : String → Action W Error DeviceTokenResponse
  pub refresh_device_token : String → Action W Error DeviceTokenResponse
  pub revoke_device_token : String → Action W Error (Unit {0})
