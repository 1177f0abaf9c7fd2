-- ===== src/Dispatch/Create.antt =====
-- CreateNotification of internal/dispatch/notifications.go.
pub mod Effects
pub mod Idempotent
pub mod Orphan
use slay_push.Queue.Enqueue.{enqueue_fanout}
use slay_push.Dispatch.{text_from}
use slay_push.Base.Json.{Data}
use slay_push.Errors.{wrapped, is_no_rows, empty_targets, err, ok, Result}
use slay_push.Store.{Spec, Notification}
use slay_push.Store.Monad.{attempt, pure, of_result, asks, ◌>>=◌, wrapping, fail, M}
use slay_push.Store.Notifications.{
  create_notification_row, get_notification_by_idempotency_key, CreateNotificationParams,
}
use slay_push.Base.{false, true, [], if◌then◌else◌, Bool, ℕ, String, List}

pub record CreateNotificationRequest : Type 0 where
  pub idempotency_key : String
  pub spec : Spec
  pub title : String
  pub body : String
  pub payload : Data

unfoldable pub has_no_targets : List ℕ → List String → Bool
has_no_targets [] [] = true
has_no_targets _ _ = false

abbrev params : ℕ → CreateNotificationRequest → String → String → CreateNotificationParams
params project_id req data_json target_spec = record {
  project_id = project_id;
  idempotency_key = text_from req.idempotency_key;
  title = text_from req.title;
  body = text_from req.body;
  payload = data_json;
  target_spec = target_spec;
}

enqueue_new : ℕ → Notification → M Notification
enqueue_new project_id n = do
  _ ←
      wrapping "enqueue fanout"
        (enqueue_fanout (record { notification_id = n.id; project_id = project_id }))
  pure n

unfoldable pub after_insert : ℕ → CreateNotificationRequest → Result Notification → M Notification
unfolding enqueue_new
after_insert project_id req (ok n) = enqueue_new project_id n
after_insert project_id req (err e) =
    if is_no_rows e
    then wrapping "fetch existing notification after idempotency-key conflict"
        (get_notification_by_idempotency_key project_id (text_from req.idempotency_key))
    else fail (wrapped "create notification" e)

unfoldable pub create_notification : ℕ → CreateNotificationRequest → M Notification
unfolding has_no_targets after_insert
create_notification project_id req =
    if has_no_targets req.spec.device_ids req.spec.external_user_ids then fail empty_targets else do
      marshal_data ← asks (λ w. w.env.marshal_data)
      data_json ← wrapping "marshal data" (of_result (marshal_data req.payload))
      marshal_spec ← asks (λ w. w.env.marshal_spec)
      target_spec ← wrapping "marshal target_spec" (of_result (marshal_spec req.spec))
      inserted ← attempt (create_notification_row (params project_id req data_json target_spec))
      after_insert project_id req inserted
