-- ===== src/Dashboard/Notifications/Done.antt =====
-- When the page of a notification stops polling.
use slay_push.Dashboard.{recipients_fragment, answer}
use slay_push.Store.Monad.{advance}
use slay_push.Errors.{ok}
use slay_push.Store.Counts.Statuses.{
  count_of-done, count_at-failed, count_at-delivered, count_at-sent, done_count,
}
use slay_push.Store.Counts.{count_recipient_statuses, recipient_status_counts, groups}
use slay_push.Store.Fates.{query_runs, AllRun}
use slay_push.Api.Status.{of_notification, by_time, list_notification_recipients}
use slay_push.Base.{refl, suc, map, some, leb, ◌≡◌, select_where, find_where, ℕ, List}
use slay_push.Store.Notifications.{has_id, get_notification_by_id}
use slay_push.Dashboard.Views.{to_recipient_view, to_recipient_counts, terminal}
use slay_push.Dashboard.Notifications.{
  fragment_found, on_fragment, fragment, with_notification_id, notification_recipients,
  handle_recipients_fragment,
}
use slay_push.Store.{NotificationRecipient, Notification, World}

-- The recipients that the page lists.
abbrev pub listed_in : World → Notification → List NotificationRecipient
listed_in w n =
    by_time (select_where (of_notification n.id n.project_id w.notifications) w.recipients)

terminal-counts :
    (id total : ℕ) (rs : List NotificationRecipient)
    → terminal (to_recipient_counts (groups id rs)) total ≡ leb total (done_count id rs)
unfolding terminal to_recipient_counts
terminal-counts id total rs =
    rw (count_at-sent id rs, count_at-delivered id rs, count_at-failed id rs, count_of-done id rs)
      refl

found_run :
    (id : ℕ) (w : World) (n : Notification)
    → AllRun w
    → find_where (has_id id) w.notifications ≡ some n
    → notification_recipients id w ≡ (ok (n, listed_in w n), advance (advance w))
unfolding notification_recipients get_notification_by_id list_notification_recipients
found_run id w n up found =
    rw (query_runs _ w (up w.tick), found, query_runs _ (advance w) (up (suc w.tick))) refl

-- With the database up, the fragment of a notification that is there shows its recipients of the same
-- project, oldest first, and polls no more exactly where the total is at most the number of its
-- recipients that are sent, delivered or failed: so at once where the fanout has not set the total.
pub fragment_stops :
    (id : ℕ) (w : World) (n : Notification)
    → AllRun w
    → find_where (has_id id) w.notifications ≡ some n
    → handle_recipients_fragment (some id) w ≡ (
      ok (
          answer (
            recipients_fragment
              (w.env.uuid_text id)
              (map (to_recipient_view w.env.uuid_text) (listed_in w n))
              (leb n.total_recipients (done_count id w.recipients)))),
      advance (advance (advance w)),
    )
unfolding handle_recipients_fragment with_notification_id fragment on_fragment fragment_found
    recipient_status_counts count_recipient_statuses
fragment_stops id w n up found =
    rw
      (
        found_run id w n up found,
        query_runs _ (advance (advance w)) (up (suc (suc w.tick))),
        terminal-counts id n.total_recipients w.recipients,
      )
      refl
