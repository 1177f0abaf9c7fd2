-- ===== src/Dashboard/Notifications.antt =====
-- internal/dashboard/notifications.go: the page of a notification, of any project, and the fragment
-- that it polls.
pub mod Done
use slay_push.Store.Tenants.{list_projects, get_project_by_id}
use slay_push.Api.Status.{list_notification_recipients}
use slay_push.Dashboard.Projects.{or_internal, current_user_email}
use slay_push.Store.Counts.{recipient_status_counts}
use slay_push.Store.Notifications.{get_notification_by_id}
use slay_push.Dashboard.Views.{
  terminal, to_recipient_view, to_recipient_counts, NotificationDetail, RecipientCounts,
}
use slay_push.Dashboard.{
  notification_page, recipients_fragment, not_found, bad_request, answer, Answer,
}
use slay_push.Errors.{ok, err, Result}
use slay_push.Store.{Project, NotificationRecipient, Notification}
use slay_push.Store.Monad.{asks, attempt, ◌>>=◌, pure, M}
use slay_push.Base.{none, some, map, List, String, ℕ, Option}

-- `notificationRecipients`
unfoldable pub notification_recipients : ℕ → M (Notification × List NotificationRecipient)
notification_recipients id = do
  n ← get_notification_by_id id
  recipients ← list_notification_recipients n.id n.project_id
  pure (n, recipients)

-- `uuid.Parse(chi.URLParam(r, "id"))`, and the answer where it fails.
unfoldable pub with_notification_id : Option ℕ → (ℕ → M Answer) → M Answer
with_notification_id none next = pure (answer (bad_request "invalid notification id"))
with_notification_id (some id) next = next id

abbrev pub detail_of :
    (ℕ → String)
    → ℕ
    → Notification
    → List NotificationRecipient
    → RecipientCounts
    → NotificationDetail
detail_of uuid_text id n recipients counts = record {
  id = uuid_text id;
  status = n.status;
  total_recipients = n.total_recipients;
  counts = counts;
  recipients = map (to_recipient_view uuid_text) recipients;
  done = terminal counts n.total_recipients;
}

unfoldable pub detail_in :
    ℕ → String → Notification → List NotificationRecipient → RecipientCounts → Project → M Answer
detail_in id email n recipients counts project = do
  projects ← list_projects
  uuid_text ← asks (λ w. w.env.uuid_text)
  pure (
      answer
        (notification_page email project projects (detail_of uuid_text id n recipients counts)))

-- Where the project is not found the answer is 404; any other failure is an internal error.
unfoldable pub detail_project :
    ℕ
    → String
    → Notification
    → List NotificationRecipient
    → RecipientCounts
    → Result Project
    → M Answer
detail_project id email n recipients counts (err e) = pure (answer (not_found "project not found"))
detail_project id email n recipients counts (ok p) = detail_in id email n recipients counts p

unfoldable pub detail_found : ℕ → ℕ → Notification → List NotificationRecipient → M Answer
detail_found user_id id n recipients = do
  rows ← recipient_status_counts id
  email ← current_user_email user_id
  project ← attempt (get_project_by_id n.project_id)
  detail_project id email n recipients (to_recipient_counts rows) project

unfoldable pub on_detail : ℕ → ℕ → Result (Notification × List NotificationRecipient) → M Answer
on_detail user_id id (err e) w = (ok (answer (not_found "notification not found")), w)
on_detail user_id id (ok (n, recipients)) w = or_internal (detail_found user_id id n recipients w)

unfoldable pub detail : ℕ → ℕ → M Answer
detail user_id id = do found ← attempt (notification_recipients id); on_detail user_id id found

-- `handleNotificationDetail`
unfoldable pub handle_notification_detail : ℕ → Option ℕ → M Answer
handle_notification_detail user_id id = with_notification_id id (detail user_id)

unfoldable pub fragment_found : ℕ → Notification → List NotificationRecipient → M Answer
fragment_found id n recipients = do
  rows ← recipient_status_counts id
  uuid_text ← asks (λ w. w.env.uuid_text)
  pure (
      answer (
        recipients_fragment (uuid_text id) (map (to_recipient_view uuid_text) recipients)
          (terminal (to_recipient_counts rows) n.total_recipients)))

unfoldable pub on_fragment : ℕ → Result (Notification × List NotificationRecipient) → M Answer
on_fragment id (err e) w = (ok (answer (not_found "notification not found")), w)
on_fragment id (ok (n, recipients)) w = or_internal (fragment_found id n recipients w)

unfoldable pub fragment : ℕ → M Answer
fragment id = do found ← attempt (notification_recipients id); on_fragment id found

-- `handleRecipientsFragment`
unfoldable pub handle_recipients_fragment : Option ℕ → M Answer
handle_recipients_fragment id = with_notification_id id fragment
