-- ===== src/Api/Status.antt =====
-- internal/transport/http/notifications.go: GET /notifications/{id} and its /recipients, and the
-- statement behind the second (recipients.sql.go of internal/store/postgres).
pub mod Tenancy
use slay_push.Store.Notifications.{get_notification, by_id_and_project}
use slay_push.Store.Monad.{attempt, ◌>>=◌, pure, query, M}
use slay_push.Store.Counts.{recipient_status_counts, CountRecipientStatusesRow}
use slay_push.Api.{
  recipient_list, notification_status, write_json, write_error, in_project, Reply,
  RecipientResponse, Server,
}
use slay_push.Errors.{is_no_rows, ok, err, Result}
use slay_push.Store.{NotificationRecipient, Notification}
use slay_push.Base.{
  map, none, some, select_where, any_where, leb, ◌&&◌, if◌then◌else◌, [], ◌==◌, ◌∷◌, ◌∷◌, String,
  Bool, ℕ, Option, List,
}

-- `order by created_at`; Postgres leaves the order of equal times open, and here they keep the
-- table's.
unfoldable pub insert_by_time :
    NotificationRecipient → List NotificationRecipient → List NotificationRecipient
insert_by_time r [] = r ∷ []
insert_by_time r (s ∷ rs) =
    if leb r.created_at s.created_at then r ∷ s ∷ rs else s ∷ insert_by_time r rs

unfoldable pub by_time : List NotificationRecipient → List NotificationRecipient
by_time [] = []
by_time (r ∷ rs) = insert_by_time r (by_time rs)

-- The join: a recipient's row is there if its notification is the project's.
abbrev pub of_notification : ℕ → ℕ → List Notification → NotificationRecipient → Bool
of_notification id project_id ns r =
    r.notification_id == id && any_where (by_id_and_project r.notification_id project_id) ns

unfoldable pub list_notification_recipients : ℕ → ℕ → M (List NotificationRecipient)
list_notification_recipients id project_id = query λ w.
    (ok (by_time (select_where (of_notification id project_id w.notifications) w.recipients)), w)

abbrev pub recipient_response : (ℕ → String) → NotificationRecipient → RecipientResponse
recipient_response uuid_text r = record {
  id = uuid_text r.id;
  device_id = uuid_text r.device_id;
  provider_type = r.provider_type;
  status = r.status;
  provider_message_id = r.provider_message_id;
  error_code = r.error_code;
  error_message = r.error_message;
  attempt_count = r.attempt_count;
}

-- `uuid.Parse(chi.URLParam(r, "id"))`, and the reply where it fails.
unfoldable pub with_id : Option ℕ → (ℕ → M Reply) → M Reply
with_id none next = pure (write_error 400 "invalid notification id")
with_id (some id) next = next id

unfoldable pub status_reply : Notification → Result (List CountRecipientStatusesRow) → M Reply
status_reply n (err e) w = (ok (write_error 500 "failed to fetch recipient counts"), w)
status_reply n (ok counts) w = (
  ok (
      write_json 200
        (notification_status (w.env.uuid_text n.id) n.status n.total_recipients counts)),
  w,
)

unfoldable pub with_notification : ℕ → Result Notification → M Reply
with_notification id (err e) =
    if is_no_rows e
    then pure (write_error 404 "notification not found")
    else pure (write_error 500 "failed to fetch notification")
with_notification id (ok n) = do
  counts ← attempt (recipient_status_counts id)
  status_reply n counts

unfoldable pub get_status : ℕ → ℕ → M Reply
get_status id project_id = do
  found ← attempt (get_notification id project_id)
  with_notification id found

unfoldable pub handle_get_notification : Server → Option ℕ → String → M Reply
handle_get_notification srv project param =
    with_id (srv.uuid_parse param) λ id. in_project project λ project_id. get_status id project_id

unfoldable pub list_reply : Result (List NotificationRecipient) → M Reply
list_reply (err e) w = (ok (write_error 500 "failed to list recipients"), w)
list_reply (ok rows) w =
    (ok (write_json 200 (recipient_list (map (recipient_response w.env.uuid_text) rows))), w)

unfoldable pub list_recipients : ℕ → ℕ → M Reply
list_recipients id project_id = do
  rows ← attempt (list_notification_recipients id project_id)
  list_reply rows

unfoldable pub handle_list_recipients : Server → Option ℕ → String → M Reply
handle_list_recipients srv project param =
    with_id (srv.uuid_parse param)
      λ id. in_project project λ project_id. list_recipients id project_id
