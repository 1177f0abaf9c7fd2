-- ===== src/Dispatch/Send.antt =====
-- HandleSend of internal/dispatch/send_handler.go.
pub mod Effects
pub mod Done
pub mod Settled
pub mod Live
pub mod Ended
pub mod Uses
use slay_push.Store.Credentials.{get_active_provider_credential}
use slay_push.Store.Devices.{mark_device_status}
use slay_push.Base.Text.{◌<>◌}
use slay_push.Dispatch.Limiter.{limiter_allow}
use slay_push.Store.Recipients.{
  mark_recipient_sending, get_notification_recipient, mark_recipient_sent,
}
use slay_push.Store.{DeviceStatus, Push, ProviderCredential, Adapter}
use slay_push.Base.Int.{ℤ}
use slay_push.Provider.{Status, SendResult, SendRequest}
use slay_push.Store.Monad.{pure, wrapping, attempt, asks, ◌>>=◌, fail, M}
use slay_push.Crypto.{open_envelope, Bytes}
use slay_push.Errors.{
  skip_retry, skip_retry_with, other, first_non_nil, throttled, ok, message, err, Result, Err,
  Texts,
}
use slay_push.Base.{if◌then◌else◌, none, ◌∷◌, suc, some, Option, ℕ, String}
use slay_push.Queue.{SendPayload}
use slay_push.Dispatch.{is_terminal, is_last_attempt, fail_recipient, text_from, Attempt}

abbrev pub environment : String
environment = "production"

abbrev opt_message : Texts → Option Err → Option Err → String
opt_message t (some e) _ = message t e
opt_message t none (some e) = message t e
opt_message t none none = ""

-- A failure to mark the device is only logged.
invalidate_device : ℕ → M (Unit {0})
invalidate_device id = do _ ← attempt (mark_device_status id DeviceStatus.invalid); pure tt

on_invalid_token : SendPayload → SendResult → Option Err → M (Unit {0})
unfolding invalidate_device
on_invalid_token p r send_err = do
  texts ← asks (λ w. w.env.texts)
  _ ← invalidate_device p.device_id
  fail_recipient p.recipient_id "invalid_token" (opt_message texts send_err r.failure)

on_transient : Attempt → SendPayload → Err → M (Unit {0})
on_transient a p e = do
  texts ← asks (λ w. w.env.texts)
  _ ←
      if is_last_attempt a
      then fail_recipient p.recipient_id "transient_error_exhausted" (message texts e)
      else pure tt
  fail e

-- The switch on the status of the result.
unfoldable pub record_outcome :
    Attempt → SendPayload → Status → SendResult → Option Err → M (Unit {0})
unfolding on_invalid_token on_transient
record_outcome a p Status.sent r send_err =
    mark_recipient_sent p.recipient_id (text_from r.provider_message_id)
record_outcome a p Status.invalid_token r send_err = on_invalid_token p r send_err
record_outcome a p Status.throttled r send_err =
    fail (throttled r.retry_after (first_non_nil send_err r.failure (other "throttled")))
record_outcome a p Status.transient_error r send_err =
    on_transient a p (first_non_nil send_err r.failure (other "transient send error"))
record_outcome a p Status.unknown r send_err =
    on_transient a p (first_non_nil send_err r.failure (other "transient send error"))

abbrev request : SendPayload → SendRequest
request p = record { token = p.token; title = p.title; body = p.body; payload = p.payload }

-- The call of the adapter.
unfoldable pub call_adapter : SendPayload → Bytes → Adapter → M (SendResult × Option Err)
call_adapter p cred adapter w =
    let push : Push = record {
      provider_type = p.provider_type;
      credential = cred;
      request = request p;
    } in
    (
      ok (adapter.send cred (request p) w.tick),
      record w { tick = suc w.tick; pushes = push ∷ w.pushes },
    )

-- Fails the recipient and tells asynq not to retry.
abandon : SendPayload → String → String → Err → M (Unit {0})
abandon p code text e = do _ ← fail_recipient p.recipient_id code text; fail e

with_adapter : Attempt → SendPayload → Bytes → Option Adapter → M (Unit {0})
unfolding abandon
with_adapter a p cred none = do
  quote ← asks (λ w. w.env.quote)
  abandon p "unknown_provider" ("no adapter registered for " <> p.provider_type)
      (skip_retry ("unknown provider " <> quote p.provider_type))
with_adapter a p cred (some adapter) = do
  outcome ← call_adapter p cred adapter
  record_outcome a p outcome.0.status outcome.0 outcome.1

with_cred : Attempt → SendPayload → Result Bytes → M (Unit {0})
unfolding abandon with_adapter
with_cred a p (err e) = do
  texts ← asks (λ w. w.env.texts)
  abandon p "credential_decrypt_failed" (message texts e)
      (skip_retry_with ("decrypt " <> p.provider_type <> " credential") e)
with_cred a p (ok cred) = do
  adapters ← asks (λ w. w.env.adapters)
  with_adapter a p cred (adapters p.provider_type)

with_row : Attempt → SendPayload → Result ProviderCredential → M (Unit {0})
unfolding abandon with_cred
with_row a p (err e) = do
  texts ← asks (λ w. w.env.texts)
  abandon p "no_credential" (message texts e)
      (skip_retry_with ("no active " <> p.provider_type <> " credential for project") e)
with_row a p (ok row) = do
  env ← asks (λ w. w.env)
  with_cred a p (open_envelope env.aead env.master_key row.wrapped_dek row.credential)

send_once : Attempt → SendPayload → M (Unit {0})
unfolding with_row
send_once a p = do
  _ ← wrapping "mark recipient sending" (mark_recipient_sending p.recipient_id)
  row ← attempt (get_active_provider_credential p.project_id p.provider_type environment)
  with_row a p row

throttle : SendPayload → ℤ → M (Unit {0})
throttle p retry_after = do
  uuid_text ← asks (λ w. w.env.uuid_text)
  fail (
      throttled retry_after (
        other (
          "outbound rate limit exceeded for project "
          <> uuid_text p.project_id
          <> " provider "
          <> p.provider_type)))

send_allowed : Attempt → SendPayload → M (Unit {0})
unfolding throttle send_once
send_allowed a p = do
  verdict ← limiter_allow p.project_id p.provider_type
  if verdict.0 then send_once a p else throttle p verdict.1

unfoldable pub handle_send : Attempt → SendPayload → M (Unit {0})
unfolding send_allowed
handle_send a p = do
  r ← wrapping "fetch recipient" (get_notification_recipient p.recipient_id)
  if is_terminal r.status then pure tt else send_allowed a p
