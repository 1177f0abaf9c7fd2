-- ===== src/Store/Counts/Statuses.antt =====
-- What the map of RecipientStatusCounts holds at each status.
use slay_push.Base.{
  refl, [], ◌&&◌, ◌∷◌, arith, ◌==◌, ◌≡◌, true, length, ◌+◌, false, select_where, List, Bool, ℕ,
}
use slay_push.Store.Counts.{count_at, groups, group, count_of}
use slay_push.Store.{NotificationRecipient, RecipientStatus}

abbrev pub is_done : RecipientStatus → Bool
is_done RecipientStatus.queued = false
is_done RecipientStatus.sending = false
is_done RecipientStatus.sent = true
is_done RecipientStatus.delivered = true
is_done RecipientStatus.failed = true

-- How many of a notification's recipients are sent, delivered or failed.
abbrev pub done_count : ℕ → List NotificationRecipient → ℕ
done_count id rs = length (select_where (λ r. r.notification_id == id && is_done r.status) rs)

pub count_at-sent :
    (id : ℕ) (rs : List NotificationRecipient)
    → count_at RecipientStatus.sent (groups id rs) ≡ count_of id RecipientStatus.sent rs
unfolding groups group count_at
count_at-sent id rs = ground arith

pub count_at-delivered :
    (id : ℕ) (rs : List NotificationRecipient)
    → count_at RecipientStatus.delivered (groups id rs) ≡ count_of id RecipientStatus.delivered rs
unfolding groups group count_at
count_at-delivered id rs = ground arith

pub count_at-failed :
    (id : ℕ) (rs : List NotificationRecipient)
    → count_at RecipientStatus.failed (groups id rs) ≡ count_of id RecipientStatus.failed rs
unfolding groups group count_at
count_at-failed id rs = ground arith

-- The three terminal counts together are the recipients that are done.
pub count_of-done :
    (id : ℕ) (rs : List NotificationRecipient)
    → count_of id RecipientStatus.sent rs
        + count_of id RecipientStatus.delivered rs
        + count_of id RecipientStatus.failed rs
      ≡ done_count id rs
unfolding count_of select_where
count_of-done id [] = refl
count_of-done id (r ∷ rs) = ground (arith, count_of-done id rs)
