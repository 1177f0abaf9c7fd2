-- ===== src/Store/WellFormed.antt =====
-- The schema's keys, as an invariant of the tables.
use slay_push.Store.Recipients.{recipient_has_id, same_target, same_recipient}
use slay_push.Store.Notifications.{same_id, has_id, same_key}
use slay_push.Store.Moves.{
  here, edit_device, edit_recipient, add_recipient, edit_notification, add_notification, then_move,
  outside, KeepsRecipientKeys, KeepsNotificationKeys, Trace, Move,
}
use slay_push.Base.{
  inr, inl, refl, arith, Bool-cases, [], ◌∙◌, any_where-update, ◌∷◌, true, ◌≡◌, Distinct-update,
  All, update_where, List, Distinct, ℕ, any_where,
}
use slay_push.Store.{NotificationRecipient, Notification, World}

pub record WellFormed (w : World) : Type 0 where
  pub keys : Distinct same_key w.notifications
  pub ids : Distinct same_id w.notifications
  pub targets : Distinct same_target w.recipients
  pub recipient_ids : Distinct same_recipient w.recipients
  pub backed : All (λ r. any_where (has_id r.notification_id) w.notifications ≡ true) w.recipients

-- A notification that is there stays there when one is added or edited.
backed-cons :
    (n : Notification) (ns : List Notification) (rs : List NotificationRecipient)
    → All (λ r. any_where (has_id r.notification_id) ns ≡ true) rs
    → All (λ r. any_where (has_id r.notification_id) (n ∷ ns) ≡ true) rs
unfolding any_where
backed-cons n ns [] h = tt
backed-cons n ns (r ∷ rs) h = (ground arith, backed-cons n ns rs h.1)

module _ (id : ℕ) (f : Notification → Notification) (k : KeepsNotificationKeys f) where
  has_id-kept : (j : ℕ) (n : Notification) → has_id j (f n) ≡ has_id j n
  has_id-kept j n = rw (k n).0 refl

  backed-update :
      (ns : List Notification) (rs : List NotificationRecipient)
      → All (λ r. any_where (has_id r.notification_id) ns ≡ true) rs
      → All (λ r. any_where (has_id r.notification_id) (update_where (has_id id) f ns) ≡ true) rs
  backed-update ns [] h = tt
  backed-update ns (r ∷ rs) h = (
    any_where-update (has_id r.notification_id) (has_id id) f ns (has_id-kept r.notification_id)
        ∙ h.0,
    backed-update ns rs h.1,
  )

  keys-update :
      (ns : List Notification)
      → Distinct same_key ns
      → Distinct same_key (update_where (has_id id) f ns)
  unfolding same_key
  keys-update ns =
      Distinct-update same_key (has_id id) f ns (λ a b. rw ((k a).1, (k a).2) refl)
        (λ a b. rw ((k b).1, (k b).2) refl)

  ids-update :
      (ns : List Notification)
      → Distinct same_id ns
      → Distinct same_id (update_where (has_id id) f ns)
  ids-update ns =
      Distinct-update same_id (has_id id) f ns (λ a b. rw (k a).0 refl) (λ a b. rw (k b).0 refl)

module _ (id : ℕ) (f : NotificationRecipient → NotificationRecipient)
    (k : KeepsRecipientKeys f) where
  targets-update :
      (rs : List NotificationRecipient)
      → Distinct same_target rs
      → Distinct same_target (update_where (recipient_has_id id) f rs)
  targets-update rs =
      Distinct-update same_target (recipient_has_id id) f rs (λ a b. rw ((k a).1, (k a).2) refl)
        (λ a b. rw ((k b).1, (k b).2) refl)

  recipient_ids-update :
      (rs : List NotificationRecipient)
      → Distinct same_recipient rs
      → Distinct same_recipient (update_where (recipient_has_id id) f rs)
  recipient_ids-update rs =
      Distinct-update same_recipient (recipient_has_id id) f rs (λ a b. rw (k a).0 refl)
        (λ a b. rw (k b).0 refl)

  backed-edit :
      (ns : List Notification) (rs : List NotificationRecipient)
      → All (λ r. any_where (has_id r.notification_id) ns ≡ true) rs
      → All
          (λ r. any_where (has_id r.notification_id) ns ≡ true)
          (update_where (recipient_has_id id) f rs)
  unfolding update_where
  backed-edit ns [] h = tt
  backed-edit ns (r ∷ rs) h = (
    elim (Bool-cases (recipient_has_id id r)) [
      | inl hit ↦ rw (hit, (k r).1) h.0
      | inr miss ↦ rw miss h.0
    ],
    backed-edit ns rs h.1,
  )

Move-WellFormed : {E : ℕ → Type 0} {w v : World} → Move E w v → WellFormed w → WellFormed v
Move-WellFormed {w} {v} (outside en er ed ep) h = record {
  keys = rw en h.keys;
  ids = rw en h.ids;
  targets = rw er h.targets;
  recipient_ids = rw er h.recipient_ids;
  backed = rw (en, er) h.backed;
}
Move-WellFormed {w} {v} (add_notification n k i p e) h = rw e (record {
  keys = (k, h.keys);
  ids = (i, h.ids);
  targets = h.targets;
  recipient_ids = h.recipient_ids;
  backed = backed-cons n w.notifications w.recipients h.backed;
})
Move-WellFormed {w} {v} (edit_notification id f k e) h = rw e (record {
  keys = keys-update id f k w.notifications h.keys;
  ids = ids-update id f k w.notifications h.ids;
  targets = h.targets;
  recipient_ids = h.recipient_ids;
  backed = backed-update id f k w.notifications w.recipients h.backed;
})
Move-WellFormed {w} {v} (add_recipient r t i b e) h = rw e (record {
  keys = h.keys;
  ids = h.ids;
  targets = (t, h.targets);
  recipient_ids = (i, h.recipient_ids);
  backed = (b, h.backed);
})
Move-WellFormed {w} {v} (edit_recipient id f _ k e) h = rw e (record {
  keys = h.keys;
  ids = h.ids;
  targets = targets-update id f k w.recipients h.targets;
  recipient_ids = recipient_ids-update id f k w.recipients h.recipient_ids;
  backed = backed-edit id f k w.notifications w.recipients h.backed;
})
Move-WellFormed {w} {v} (edit_device id status at e) h = rw e (record {
  keys = h.keys;
  ids = h.ids;
  targets = h.targets;
  recipient_ids = h.recipient_ids;
  backed = h.backed;
})

pub Trace-WellFormed : {E : ℕ → Type 0} {w v : World} → Trace E w v → WellFormed w → WellFormed v
Trace-WellFormed here h = h
Trace-WellFormed (then_move t m) h = Move-WellFormed m (Trace-WellFormed t h)
