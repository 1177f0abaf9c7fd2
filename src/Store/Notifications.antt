-- ===== src/Store/Notifications.antt =====
-- internal/store/postgres/notifications.sql.go.
use slay_push.Base.Text.{str_eq}
use slay_push.Errors.{violation, no_rows, ok, err, Result}
use slay_push.Store.Projects.{has_project}
use slay_push.Base.{
  false, ◌∷◌, some, any_where, ◌&&◌, none, if◌then◌else◌, find_where, ◌==◌, update_where, Bool, ℕ,
  String, Option,
}
use slay_push.Store.{NotificationStatus, World, Notification}
use slay_push.Store.Monad.{query, M}

abbrev pub opt_str_eq : Option String → Option String → Bool
opt_str_eq (some s) (some t) = str_eq s t
opt_str_eq (some s) none = false
opt_str_eq none _ = false

-- Clashes in notifications_project_idempotency_key_idx, which leaves null keys out.
unfoldable pub same_key : Notification → Notification → Bool
same_key a b = a.project_id == b.project_id && opt_str_eq a.idempotency_key b.idempotency_key

abbrev pub same_id : Notification → Notification → Bool
same_id a b = a.id == b.id

pub record CreateNotificationParams : Type 0 where
  pub project_id : ℕ
  pub idempotency_key : Option String
  pub title : Option String
  pub body : Option String
  pub payload : String
  pub target_spec : String

-- The new row, with the columns that the statement leaves to their defaults.
unfoldable pub new_notification : CreateNotificationParams → String → String → World → Notification
new_notification p payload target_spec w = record {
  id = w.env.gen_random_uuid w.tick;
  project_id = p.project_id;
  idempotency_key = p.idempotency_key;
  title = p.title;
  body = p.body;
  payload = payload;
  target_spec = target_spec;
  status = NotificationStatus.pending;
  total_recipients = 0;
  created_at = w.env.now w.tick;
  completed_at = none;
}

unfoldable pub insert_notification : Notification → World → Result Notification × World
unfolding same_key has_project
insert_notification n w =
    if any_where (same_key n) w.notifications
    then (err no_rows, w)
    else if any_where (same_id n) w.notifications
    then (err (violation "notifications_pkey"), w)
    else if has_project n.project_id w
    then (ok n, record w { notifications = n ∷ w.notifications })
    else (err (violation "notifications_project_id_fkey"), w)

unfoldable pub create_notification_stmt :
    CreateNotificationParams → World → Result Notification × World
create_notification_stmt p w = elim (w.env.jsonb p.payload) [
  | none ↦ (err (violation "jsonb"), w)
  | some payload ↦ elim (w.env.jsonb p.target_spec) [
    | none ↦ (err (violation "jsonb"), w)
    | some target_spec ↦ insert_notification (new_notification p payload target_spec w) w
  ]
]

unfoldable pub create_notification_row : CreateNotificationParams → M Notification
create_notification_row p = query (create_notification_stmt p)

-- `:one` statements that find no row return pgx.ErrNoRows.
abbrev pub one_row : {A : Type 0} → Option A → Result A
one_row none = err no_rows
one_row (some a) = ok a

abbrev pub by_key : ℕ → Option String → Notification → Bool
by_key project_id key n = n.project_id == project_id && opt_str_eq n.idempotency_key key

unfoldable pub get_notification_by_idempotency_key : ℕ → Option String → M Notification
get_notification_by_idempotency_key project_id key =
    query λ w. (one_row (find_where (by_key project_id key) w.notifications), w)

abbrev pub by_id_and_project : ℕ → ℕ → Notification → Bool
by_id_and_project id project_id n = n.id == id && n.project_id == project_id

unfoldable pub get_notification : ℕ → ℕ → M Notification
get_notification id project_id =
    query λ w. (one_row (find_where (by_id_and_project id project_id) w.notifications), w)

abbrev pub has_id : ℕ → Notification → Bool
has_id id n = n.id == id

unfoldable pub get_notification_by_id : ℕ → M Notification
get_notification_by_id id = query λ w. (one_row (find_where (has_id id) w.notifications), w)

unfoldable pub update_notifications : ℕ → (Notification → Notification) → World → World
update_notifications id f w = record w {
  notifications = update_where (has_id id) f w.notifications;
}

unfoldable pub set_notification_status : ℕ → NotificationStatus → M (Unit {0})
unfolding update_notifications
set_notification_status id status =
    query λ w. (ok tt, update_notifications id (λ n. record n { status = status }) w)

unfoldable pub set_notification_totals : ℕ → ℕ → M (Unit {0})
unfolding update_notifications
set_notification_totals id total =
    query λ w. (ok tt, update_notifications id (λ n. record n { total_recipients = total }) w)

unfoldable pub complete_notification : ℕ → NotificationStatus → M (Unit {0})
unfolding update_notifications
complete_notification id status = query λ w. (
  ok tt,
  update_notifications id
      (λ n. record n { status = status; completed_at = some (w.env.now w.tick) }) w,
)
