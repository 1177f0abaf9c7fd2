-- ===== src/Provider.antt =====
-- internal/provider/provider.go: the outcome of a send, and the registry of adapters.
pub mod Registry
pub mod Http
pub mod Expo
pub mod Fcm
pub mod Cache
pub mod Sent
pub mod Hms
pub mod Apns
use slay_push.Base.{ℕ, String, Bool, Option}
use slay_push.Base.Int.{ℤ}
use slay_push.Base.Json.{Data}
use slay_push.Errors.{Err}

pub data Status : Type 0 where
  unknown sent invalid_token transient_error throttled : Status

pub record SendRequest : Type 0 where
  pub token : String
  pub title : String
  pub body : String
  pub payload : Data

pub record SendResult : Type 0 where
  pub provider_message_id : String
  pub status : Status
  pub retry_after : ℤ
  pub failure : Option Err
