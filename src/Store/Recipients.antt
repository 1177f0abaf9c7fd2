-- ===== src/Store/Recipients.antt =====
-- internal/store/postgres/recipients.sql.go.
use slay_push.Store.Notifications.{one_row}
use slay_push.Errors.{violation, no_rows, ok, err, Result}
use slay_push.Store.Monad.{query, M}
use slay_push.Base.{
  ltb, any_where, if◌then◌else◌, find_where, ◌&&◌, ◌∷◌, update_where, some, none, ◌==◌, String,
  Bool, ◌+◌, ℕ, Option,
}
use slay_push.Store.{World, RecipientStatus, NotificationRecipient}

-- Clashes in the unique index on (notification_id, device_id).
abbrev pub same_target : NotificationRecipient → NotificationRecipient → Bool
same_target a b = a.notification_id == b.notification_id && a.device_id == b.device_id

abbrev pub same_recipient : NotificationRecipient → NotificationRecipient → Bool
same_recipient a b = a.id == b.id

unfoldable pub new_recipient : ℕ → ℕ → String → World → NotificationRecipient
new_recipient notification_id device_id provider_type w = record {
  id = w.env.gen_random_uuid w.tick;
  notification_id = notification_id;
  device_id = device_id;
  provider_type = provider_type;
  status = RecipientStatus.queued;
  provider_message_id = none;
  error_code = none;
  error_message = none;
  attempt_count = 0;
  sent_at = none;
  failed_at = none;
  created_at = w.env.now w.tick;
}

unfoldable pub insert_recipient :
    NotificationRecipient → World → Result NotificationRecipient × World
insert_recipient r w =
    if any_where (same_target r) w.recipients
    then (err no_rows, w)
    else if any_where (same_recipient r) w.recipients
    then (err (violation "notification_recipients_pkey"), w)
    else if any_where (λ n. n.id == r.notification_id) w.notifications
        && any_where (λ d. d.id == r.device_id) w.devices
    then (ok r, record w { recipients = r ∷ w.recipients })
    else (err (violation "notification_recipients_fkey"), w)

unfoldable pub insert_notification_recipient : ℕ → ℕ → String → M NotificationRecipient
insert_notification_recipient notification_id device_id provider_type =
    query λ w. insert_recipient (new_recipient notification_id device_id provider_type w) w

abbrev pub for_target : ℕ → ℕ → NotificationRecipient → Bool
for_target notification_id device_id r =
    r.notification_id == notification_id && r.device_id == device_id

unfoldable pub get_recipient_by_notification_and_device : ℕ → ℕ → M NotificationRecipient
get_recipient_by_notification_and_device notification_id device_id =
    query λ w. (one_row (find_where (for_target notification_id device_id) w.recipients), w)

abbrev pub recipient_has_id : ℕ → NotificationRecipient → Bool
recipient_has_id id r = r.id == id

unfoldable pub get_notification_recipient : ℕ → M NotificationRecipient
get_notification_recipient id =
    query λ w. (one_row (find_where (recipient_has_id id) w.recipients), w)

unfoldable pub update_recipients :
    ℕ → (NotificationRecipient → NotificationRecipient) → World → World
update_recipients id f w = record w {
  recipients = update_where (recipient_has_id id) f w.recipients;
}

-- The largest value of an `int` column.
abbrev pub max_int : ℕ
max_int = 2147483647

unfoldable pub to_sending : NotificationRecipient → NotificationRecipient
to_sending r = record r { status = RecipientStatus.sending; attempt_count = r.attempt_count + 1 }

unfoldable pub mark_sending_found :
    Option NotificationRecipient → ℕ → World → Result NotificationRecipient × World
mark_sending_found none id w = (err no_rows, w)
mark_sending_found (some r) id w =
    if ltb r.attempt_count max_int
    then (ok (to_sending r), update_recipients id to_sending w)
    else (err (violation "integer out of range"), w)

unfoldable pub mark_recipient_sending : ℕ → M NotificationRecipient
mark_recipient_sending id =
    query λ w. mark_sending_found (find_where (recipient_has_id id) w.recipients) id w

unfoldable pub to_sent : Option String → ℕ → NotificationRecipient → NotificationRecipient
to_sent message_id at r = record r {
  status = RecipientStatus.sent;
  provider_message_id = message_id;
  sent_at = some at;
}

unfoldable pub mark_recipient_sent : ℕ → Option String → M (Unit {0})
mark_recipient_sent id message_id =
    query λ w. (ok tt, update_recipients id (to_sent message_id (w.env.now w.tick)) w)

unfoldable pub to_failed :
    Option String → Option String → ℕ → NotificationRecipient → NotificationRecipient
to_failed code text at r = record r {
  status = RecipientStatus.failed;
  error_code = code;
  error_message = text;
  failed_at = some at;
}

unfoldable pub mark_recipient_failed : ℕ → Option String → Option String → M (Unit {0})
mark_recipient_failed id code text =
    query λ w. (ok tt, update_recipients id (to_failed code text (w.env.now w.tick)) w)
