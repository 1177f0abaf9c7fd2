-- ===== src/Dispatch/Fanout.antt =====
-- HandleFanout and getOrCreateRecipient of internal/dispatch/fanout_handler.go.
pub mod Effects
pub mod Coverage
pub mod Queued
pub mod Tasks
pub mod Runs
pub mod Finished
pub mod Success
use slay_push.Targeting.{resolve}
use slay_push.Queue.Enqueue.{enqueue_send}
use slay_push.Store.Devices.{get_devices_by_ids}
use slay_push.Store.Recipients.{
  insert_notification_recipient, get_recipient_by_notification_and_device,
}
use slay_push.Base.Text.{◌<>◌, str_eq}
use slay_push.Store.Notifications.{
  set_notification_totals, set_notification_status, get_notification, complete_notification,
}
use slay_push.Store.Monad.{of_result, wrapping, attempt, asks, ◌>>=◌, fail, pure, M}
use slay_push.Errors.{wrapped, is_no_rows, err, ok, Result, Err}
use slay_push.Store.{NotificationStatus, NotificationRecipient, Notification, Device}
use slay_push.Base.Json.{Data}
use slay_push.Base.{◌+◌, [], ◌∷◌, none, if◌then◌else◌, some, List, ◌%◌, ℕ, String, Option}
use slay_push.Queue.{SendPayload, FanoutPayload}

-- The set-status call before an early return: its own error is dropped.
give_up : {A : Type 0} → ℕ → Err → M A
give_up id e = do _ ← attempt (set_notification_status id NotificationStatus.failed); fail e

or_give_up : {A : Type 0} → ℕ → String → Result A → M A
unfolding give_up
or_give_up id text (ok a) = pure a
or_give_up id text (err e) = give_up id (wrapped text e)

unfoldable pub or_existing : ℕ → ℕ → Result NotificationRecipient → M NotificationRecipient
or_existing notification_id device_id (ok r) = pure r
or_existing notification_id device_id (err e) =
    if is_no_rows e
    then get_recipient_by_notification_and_device notification_id device_id
    else fail e

unfoldable pub get_or_create_recipient : ℕ → ℕ → String → M NotificationRecipient
unfolding or_existing
get_or_create_recipient notification_id device_id provider_type = do
  inserted ← attempt (insert_notification_recipient notification_id device_id provider_type)
  or_existing notification_id device_id inserted

-- What every task of one fanout shares.
pub record Content : Type 0 where
  pub title : String
  pub body : String
  pub payload : Data

abbrev pub send_payload : FanoutPayload → Content → NotificationRecipient → Device → SendPayload
send_payload p c r d = record {
  notification_id = p.notification_id;
  recipient_id = r.id;
  device_id = d.id;
  project_id = p.project_id;
  provider_type = d.provider_type;
  token = d.token;
  title = c.title;
  body = c.body;
  payload = c.payload;
}

unfoldable pub fanout_one : FanoutPayload → ℕ → Content → Device → M (Unit {0})
fanout_one p notification_id c d = do
  uuid_text ← asks (λ w. w.env.uuid_text)
  r ←
      wrapping ("insert recipient for device " <> uuid_text d.id)
        (get_or_create_recipient notification_id d.id d.provider_type)
  wrapping ("enqueue send for recipient " <> uuid_text r.id) (enqueue_send (send_payload p c r d))

-- The loop over the devices; `enqueued` counts the rounds that succeeded.
unfoldable pub fanout_loop : FanoutPayload → ℕ → Content → ℕ → List Device → M ℕ
fanout_loop p notification_id c enqueued [] = pure enqueued
fanout_loop p notification_id c enqueued (d ∷ ds) = do
  _ ← fanout_one p notification_id c d
  fanout_loop p notification_id c (enqueued + 1) ds

abbrev text_or_empty : Option String → String
text_or_empty none = ""
text_or_empty (some s) = s

unfoldable pub decode_data : String → M Data
decode_data payload = if str_eq payload "" then pure none else do
  unmarshal_data ← asks (λ w. w.env.unmarshal_data)
  wrapping "unmarshal notification data" (of_result (unmarshal_data payload))

-- `int32(enqueued)`, as a bit pattern.
abbrev pub int32 : ℕ → ℕ
int32 n = n % 4294967296

unfoldable pub send_to_devices : FanoutPayload → Notification → List ℕ → M (Unit {0})
unfolding decode_data
send_to_devices p n ids = do
  devices ← wrapping "fetch devices" (get_devices_by_ids n.project_id ids)
  payload ← decode_data n.payload
  enqueued ←
      fanout_loop p n.id
        (record { title = text_or_empty n.title; body = text_or_empty n.body; payload = payload }) 0
        devices
  _ ← wrapping "set notification totals" (set_notification_totals n.id (int32 enqueued))
  set_notification_status n.id NotificationStatus.processing

unfoldable pub fanout_to : FanoutPayload → Notification → List ℕ → M (Unit {0})
fanout_to p n [] = complete_notification n.id NotificationStatus.completed
fanout_to p n (id ∷ ids) = send_to_devices p n (id ∷ ids)

unfoldable pub handle_fanout : FanoutPayload → M (Unit {0})
unfolding or_give_up fanout_to
handle_fanout p = do
  n ← wrapping "fetch notification" (get_notification p.notification_id p.project_id)
  unmarshal_spec ← asks (λ w. w.env.unmarshal_spec)
  spec ← or_give_up n.id "invalid target_spec (not retryable)" (unmarshal_spec n.target_spec)
  resolved ← attempt (resolve p.project_id spec)
  ids ← or_give_up n.id "resolve targets (not retryable)" resolved
  fanout_to p n ids
