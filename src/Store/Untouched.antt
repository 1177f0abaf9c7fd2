-- ===== src/Store/Untouched.antt =====
-- Rows that a chain of moves may not edit.
use mathlib.Core.Path.{subst}
use slay_push.Store.Recipients.{same_recipient, recipient_has_id}
use slay_push.Store.Moves.{
  edit_device, edit_recipient, add_recipient, edit_notification, here, add_notification, then_move,
  outside, Trace, Move, KeepsRecipientKeys,
}
use slay_push.Store.{World, NotificationRecipient}
use slay_push.Base.{
  refl, find_where_sound, find_where-update, [], ◌∷◌, update_where, arith, some, false, ◌≢◌, ◌≡◌,
  List, ℕ, find_where, any_where,
}

other_id :
    (id : ℕ) (x : NotificationRecipient) (rs : List NotificationRecipient)
    (r : NotificationRecipient)
    → any_where (same_recipient x) rs ≡ false
    → find_where (recipient_has_id id) rs ≡ some r
    → recipient_has_id id x ≡ false
unfolding any_where find_where
other_id id x [] r h k = ground arith
other_id id x (y ∷ rs) r h k = ground (arith, other_id id x rs r)

found-cons :
    (id : ℕ) (x : NotificationRecipient) (rs : List NotificationRecipient)
    (r : NotificationRecipient)
    → recipient_has_id id x ≡ false
    → find_where (recipient_has_id id) rs ≡ some r
    → find_where (recipient_has_id id) (x ∷ rs) ≡ some r
unfolding find_where
found-cons id x rs r h k = rw h k

found-update :
    (id j : ℕ) (f : NotificationRecipient → NotificationRecipient) (rs : List NotificationRecipient)
    (r : NotificationRecipient)
    → KeepsRecipientKeys f
    → j ≢ id
    → find_where (recipient_has_id id) rs ≡ some r
    → find_where (recipient_has_id id) (update_where (recipient_has_id j) f rs) ≡ some r
found-update id j f rs r k ne h =
    rw (find_where-update (recipient_has_id id) (recipient_has_id j) f rs (λ a. rw (k a).0 refl), h)
      (ground (arith, find_where_sound (recipient_has_id id) rs r h))

module _ (E : ℕ → Type 0) (id : ℕ) (r : NotificationRecipient) (spared : ¬ E id) where
  abbrev Found : World → Type 0
  Found w = find_where (recipient_has_id id) w.recipients ≡ some r

  Move-Found : {w v : World} → Move E w v → Found w → Found v
  Move-Found (outside en er ed ep) h = rw er h
  Move-Found (add_notification n k i p e) h = rw e h
  Move-Found (edit_notification j f k e) h = rw e h
  Move-Found {w} (add_recipient x t i b e) h =
      rw e (found-cons id x w.recipients r (other_id id x w.recipients r i h) h)
  Move-Found {w} (edit_recipient j f allowed k e) h =
      rw e (found-update id j f w.recipients r k (λ q. spared (subst E q allowed)) h)
  Move-Found (edit_device j s at e) h = rw e h

  pub Trace-Found : {w v : World} → Trace E w v → Found w → Found v
  Trace-Found here h = h
  Trace-Found (then_move t m) h = Move-Found m (Trace-Found t h)
