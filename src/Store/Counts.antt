-- ===== src/Store/Counts.antt =====
-- CountRecipientStatuses of internal/store/postgres/recipients.sql.go, and RecipientStatusCounts of
-- internal/dispatch/notifications.go, which makes a map of its rows.
pub mod Totals
pub mod Statuses
use slay_push.Errors.{ok}
use slay_push.Store.Monad.{pure, ◌>>=◌, query, M}
use slay_push.Base.{◌+◌, ◌&&◌, ◌∷◌, false, [], ◌==◌, true, if◌then◌else◌, List, Bool, ℕ}
use slay_push.Store.{NotificationRecipient, RecipientStatus}

pub record CountRecipientStatusesRow : Type 0 where
  pub status : RecipientStatus
  pub count : ℕ

abbrev pub same_status : RecipientStatus → RecipientStatus → Bool
same_status RecipientStatus.queued RecipientStatus.queued = true
same_status RecipientStatus.sending RecipientStatus.sending = true
same_status RecipientStatus.sent RecipientStatus.sent = true
same_status RecipientStatus.delivered RecipientStatus.delivered = true
same_status RecipientStatus.failed RecipientStatus.failed = true
same_status _ _ = false

unfoldable pub count_of : ℕ → RecipientStatus → List NotificationRecipient → ℕ
count_of notification_id s [] = 0
count_of notification_id s (r ∷ rs) =
    (if r.notification_id == notification_id && same_status r.status s then 1 else 0)
    + count_of notification_id s rs

-- A group with no row is not in the answer.
group : RecipientStatus → ℕ → List CountRecipientStatusesRow → List CountRecipientStatusesRow
group s n rows = if n == 0 then rows else record { status = s; count = n } ∷ rows

unfoldable pub groups : ℕ → List NotificationRecipient → List CountRecipientStatusesRow
unfolding group
groups id rs = group RecipientStatus.queued (count_of id RecipientStatus.queued rs) (
    group RecipientStatus.sending (count_of id RecipientStatus.sending rs) (
      group RecipientStatus.sent (count_of id RecipientStatus.sent rs) (
        group RecipientStatus.delivered (count_of id RecipientStatus.delivered rs)
          (group RecipientStatus.failed (count_of id RecipientStatus.failed rs) []))))

unfoldable pub count_recipient_statuses : ℕ → M (List CountRecipientStatusesRow)
count_recipient_statuses notification_id = query λ w. (ok (groups notification_id w.recipients), w)

-- The map that RecipientStatusCounts returns, by its entries: the statuses of the rows differ.
unfoldable pub recipient_status_counts : ℕ → M (List CountRecipientStatusesRow)
recipient_status_counts notification_id = do
  rows ← count_recipient_statuses notification_id
  pure rows

-- The map's value at a status; 0 where the map has none.
unfoldable pub count_at : RecipientStatus → List CountRecipientStatusesRow → ℕ
count_at s [] = 0
count_at s (row ∷ rows) = if same_status row.status s then row.count else count_at s rows
