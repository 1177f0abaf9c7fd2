-- ===== src/Dispatch/Send/Uses.antt =====
-- The push that HandleSend makes.
use slay_push.Dispatch.Limiter.{limiter_allow-unset}
use slay_push.Dispatch.Send.Settled.{Fresh}
use slay_push.Store.Fates.{query_runs, AllRun}
use slay_push.Store.Credentials.{is_active_for, get_active_provider_credential}
use slay_push.Store.Keeps.{Keeps-query, keeping, Keeps-fail, Keeps}
use slay_push.Provider.{SendResult, Status}
use slay_push.Errors.{ok, Err}
use slay_push.Dispatch.Send.{
  send_allowed, handle_send, environment, with_cred, with_row, call_adapter, with_adapter,
  send_once, request, invalidate_device, record_outcome, on_transient, on_invalid_token,
}
use slay_push.Store.Recipients.{
  recipient_has_id, get_notification_recipient, max_int, to_sending, mark_sending_found,
  mark_recipient_sending, update_recipients, mark_recipient_sent, mark_recipient_failed,
}
use slay_push.Store.Devices.{update_devices, mark_device_status}
use slay_push.Store.Monad.{advance, query, M}
use slay_push.Store.{NotificationRecipient, DeviceStatus, Adapter, World, ProviderCredential, Push}
use slay_push.Crypto.{open_envelope, Bytes}
use slay_push.Queue.{SendPayload}
use slay_push.Base.{
  ◌<◌, false, none, suc, lt→ltb, find_where, ◌∷◌, ◌∙◌, some, refl, String, Option, ◌≡◌, ℕ, List,
}
use slay_push.Dispatch.{is_terminal, fail_recipient, Attempt}

module _ (pushes : List Push) where
  abbrev Made : World → Type 0
  Made u = u.pushes ≡ pushes

  statement-Made :
      {A : Type 0} (q : M A) → ((u : World) → (q u).1.pushes ≡ u.pushes) → Keeps Made (query q)
  statement-Made q same = Keeps-query q (λ u h. same u ∙ h) (λ u h. h)

  sent-Made : (id : ℕ) (m : Option String) → Keeps Made (mark_recipient_sent id m)
  unfolding mark_recipient_sent update_recipients
  sent-Made id m = statement-Made _ (λ u. refl)

  failed-Made : (id : ℕ) (c t : Option String) → Keeps Made (mark_recipient_failed id c t)
  unfolding mark_recipient_failed update_recipients
  failed-Made id c t = statement-Made _ (λ u. refl)

  device-Made : (id : ℕ) (s : DeviceStatus) → Keeps Made (mark_device_status id s)
  unfolding mark_device_status update_devices
  device-Made id s = statement-Made _ (λ u. refl)

  fail_recipient-Made : (id : ℕ) (c t : String) → Keeps Made (fail_recipient id c t)
  unfolding fail_recipient
  fail_recipient-Made id c t = search (keeping, failed-Made) depth 9

  transient-Made : (a : Attempt) (p : SendPayload) (e : Err) → Keeps Made (on_transient a p e)
  unfolding on_transient
  transient-Made a p e = search (keeping, fail_recipient-Made) depth 12

  invalid-Made :
      (p : SendPayload) (r : SendResult) (x : Option Err) → Keeps Made (on_invalid_token p r x)
  unfolding on_invalid_token invalidate_device
  invalid-Made p r x = search (keeping, device-Made, fail_recipient-Made) depth 14

  -- What follows a push makes no other.
  outcome-Made :
      (a : Attempt) (p : SendPayload) (s : Status) (r : SendResult) (x : Option Err)
      → Keeps Made (record_outcome a p s r x)
  unfolding record_outcome
  outcome-Made a p Status.sent r x = sent-Made p.recipient_id _
  outcome-Made a p Status.invalid_token r x = invalid-Made p r x
  outcome-Made a p Status.throttled r x = Keeps-fail
  outcome-Made a p Status.transient_error r x = transient-Made a p _
  outcome-Made a p Status.unknown r x = transient-Made a p _

abbrev pub push_of : SendPayload → Bytes → Push
push_of p cred = record { provider_type = p.provider_type; credential = cred; request = request p }

module _ (a : Attempt) (p : SendPayload) (cred : Bytes) (row : ProviderCredential)
    (ad : Adapter) where
  adapter-pushes :
      (u : World) → (with_adapter a p cred (some ad) u).1.pushes ≡ push_of p cred ∷ u.pushes
  unfolding with_adapter call_adapter
  adapter-pushes u =
      let x = ad.send cred (request p) u.tick in
      (outcome-Made (push_of p cred ∷ u.pushes) a p x.0.status x.0 x.1).keep _ refl

  once-pushes :
      (w : World)
      → AllRun w
      → Fresh a p w
      → find_where (is_active_for p.project_id p.provider_type environment) w.credentials ≡ some row
      → open_envelope w.env.aead w.env.master_key row.wrapped_dek row.credential ≡ ok cred
      → w.env.adapters p.provider_type ≡ some ad
      → (send_once a p w).1.pushes ≡ push_of p cred ∷ w.pushes
  unfolding send_once mark_recipient_sending mark_sending_found update_recipients
      get_active_provider_credential with_row with_cred
  once-pushes w up (r, h, room) active opened known =
      let marked = update_recipients p.recipient_id to_sending (advance w) in
      rw
        (
          query_runs _ w (up w.tick),
          h,
          lt→ltb r.attempt_count max_int room,
          query_runs _ marked (up (suc w.tick)),
          active,
          opened,
          known,
        )
        (adapter-pushes (advance marked))

  allowed-pushes :
      (w : World)
      → AllRun w
      → w.env.outbound_limiter ≡ none
      → Fresh a p w
      → find_where (is_active_for p.project_id p.provider_type environment) w.credentials ≡ some row
      → open_envelope w.env.aead w.env.master_key row.wrapped_dek row.credential ≡ ok cred
      → w.env.adapters p.provider_type ≡ some ad
      → (send_allowed a p w).1.pushes ≡ push_of p cred ∷ w.pushes
  unfolding send_allowed
  allowed-pushes w up unset fresh active opened known =
      rw (limiter_allow-unset p.project_id p.provider_type w unset)
        (once-pushes w up fresh active opened known)

  -- With the database up, no outbound limiter, and a recipient that is there, is not in a terminal
  -- state and has room for an attempt: a send task makes exactly one push, of the task's token, title,
  -- body and data, with what the project's active credential of the provider opens to.
  pub handle_send-pushes :
      (w : World) (r : NotificationRecipient)
      → AllRun w
      → w.env.outbound_limiter ≡ none
      → find_where (recipient_has_id p.recipient_id) w.recipients ≡ some r
      → is_terminal r.status ≡ false
      → r.attempt_count < max_int
      → find_where (is_active_for p.project_id p.provider_type environment) w.credentials ≡ some row
      → open_envelope w.env.aead w.env.master_key row.wrapped_dek row.credential ≡ ok cred
      → w.env.adapters p.provider_type ≡ some ad
      → (handle_send a p w).1.pushes ≡ push_of p cred ∷ w.pushes
  unfolding handle_send get_notification_recipient
  handle_send-pushes w r up unset there live room active opened known =
      rw (query_runs _ w (up w.tick), there, live)
        (allowed-pushes (advance w) up unset (r, there, room) active opened known)
