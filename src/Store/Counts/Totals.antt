-- ===== src/Store/Counts/Totals.antt =====
-- The counts of a notification's recipients, added up.
use slay_push.Store.Success.{query_ok, bind_ok}
use slay_push.Errors.{err, Result, ok}
use slay_push.Store.Counts.{
  same_status, groups, count_recipient_statuses, CountRecipientStatusesRow, recipient_status_counts,
  group, count_of,
}
use slay_push.Store.{World, NotificationRecipient, RecipientStatus}
use slay_push.Base.{
  sym, ap, inr, false, true, refl, inl, Bool-cases, length, arith, [], ◌&&◌, ◌∷◌, ◌≡◌,
  if◌then◌else◌, ◌==◌, ◌+◌, select_where, Bool, ℕ, List,
}

unfoldable pub total : List CountRecipientStatusesRow → ℕ
total [] = 0
total (row ∷ rows) = row.count + total rows

unfoldable pub recipients_of : ℕ → List NotificationRecipient → List NotificationRecipient
recipients_of id = select_where λ r. r.notification_id == id

total-group :
    (s : RecipientStatus) (n : ℕ) (rows : List CountRecipientStatusesRow)
    → total (group s n rows) ≡ n + total rows
unfolding total group
total-group s n rows = ground arith

one_status :
    (s : RecipientStatus) (b : Bool)
    → (if b && same_status s RecipientStatus.queued then 1 else 0)
        + ((if b && same_status s RecipientStatus.sending then 1 else 0)
            + ((if b && same_status s RecipientStatus.sent then 1 else 0)
                + ((if b && same_status s RecipientStatus.delivered then 1 else 0)
                    + (if b && same_status s RecipientStatus.failed then 1 else 0))))
      ≡ (if b then 1 else 0)
one_status RecipientStatus.queued true = refl
one_status RecipientStatus.sending true = refl
one_status RecipientStatus.sent true = refl
one_status RecipientStatus.delivered true = refl
one_status RecipientStatus.failed true = refl
one_status _ false = refl

five :
    (id : ℕ) (rs : List NotificationRecipient)
    → count_of id RecipientStatus.queued rs
        + (count_of id RecipientStatus.sending rs
            + (count_of id RecipientStatus.sent rs
                + (count_of id RecipientStatus.delivered rs
                    + count_of id RecipientStatus.failed rs)))
      ≡ length (recipients_of id rs)
unfolding count_of recipients_of select_where
five id [] = refl
five id (r ∷ rs) = elim (Bool-cases (r.notification_id == id)) [
  | inl own ↦ rw own (omega (arith, five id rs, one_status r.status true))
  | inr other ↦ rw other (omega (arith, five id rs))
]

from_failed : ℕ → List NotificationRecipient → List CountRecipientStatusesRow
unfolding group
from_failed id rs = group RecipientStatus.failed (count_of id RecipientStatus.failed rs) []

from_delivered : ℕ → List NotificationRecipient → List CountRecipientStatusesRow
unfolding group from_failed
from_delivered id rs =
    group RecipientStatus.delivered (count_of id RecipientStatus.delivered rs) (from_failed id rs)

from_sent : ℕ → List NotificationRecipient → List CountRecipientStatusesRow
unfolding group from_delivered
from_sent id rs =
    group RecipientStatus.sent (count_of id RecipientStatus.sent rs) (from_delivered id rs)

from_sending : ℕ → List NotificationRecipient → List CountRecipientStatusesRow
unfolding group from_sent
from_sending id rs =
    group RecipientStatus.sending (count_of id RecipientStatus.sending rs) (from_sent id rs)

total-groups :
    (id : ℕ) (rs : List NotificationRecipient) → total (groups id rs) ≡ length (recipients_of id rs)
unfolding groups total from_failed from_delivered from_sent from_sending
total-groups id rs =
    let q =
      total-group RecipientStatus.queued (count_of id RecipientStatus.queued rs)
        (from_sending id rs) in
    let g =
      total-group RecipientStatus.sending (count_of id RecipientStatus.sending rs)
        (from_sent id rs) in
    let s =
      total-group RecipientStatus.sent (count_of id RecipientStatus.sent rs)
        (from_delivered id rs) in
    let d =
      total-group RecipientStatus.delivered (count_of id RecipientStatus.delivered rs)
        (from_failed id rs) in
    let f = total-group RecipientStatus.failed (count_of id RecipientStatus.failed rs) [] in
    omega (arith, q, g, s, d, f, five id rs)

rows_of : Result (List CountRecipientStatusesRow) → List CountRecipientStatusesRow
rows_of (ok rows) = rows
rows_of (err e) = []

-- The counts that RecipientStatusCounts returns add up to the number of the notification's
-- recipients.
pub total-recipient_status_counts :
    (id : ℕ) (w v : World) (rows : List CountRecipientStatusesRow)
    → recipient_status_counts id w ≡ (ok rows, v)
    → total rows ≡ length (recipients_of id w.recipients)
unfolding recipient_status_counts count_recipient_statuses rows_of
total-recipient_status_counts id w v rows h =
    let (a, u, read, made) = bind_ok (count_recipient_statuses id w) _ rows v h in
    let read_rows = ap (λ z. rows_of z.0) (query_ok _ w a u read) in
    let same : a ≡ rows = ap (λ z. rows_of z.0) made in
    rw (sym same, sym read_rows) (total-groups id w.recipients)
