-- ===== src/Dispatch/Fanout/Coverage.antt =====
-- The recipients that the rounds of a fanout leave.
use slay_push.Store.Notifications.{one_row}
use slay_push.Dispatch.Fanout.{or_existing, get_or_create_recipient}
use slay_push.Store.Monad.{fail, advance}
use slay_push.Store.Success.{ok_eq, query_ok}
-- A fanout that succeeds has a recipient for each of its devices.
use slay_push.Errors.{is_no_rows, Err, violation, no_rows, err, Result, ok}
use slay_push.Store.Moves.{
  edit_device, edit_recipient, add_recipient, edit_notification, here, add_notification, then_move,
  outside, Trace, Move,
}
use slay_push.Store.Recipients.{
  recipient_has_id, new_recipient, insert_recipient, for_target, insert_notification_recipient,
  get_recipient_by_notification_and_device,
}
use slay_push.Store.{NotificationRecipient, World}
use slay_push.Base.{
  find_where_sound, find_where-any_other, false, none, if◌then◌else◌, Option, ap, sym, some, Bool,
  find_where, ==_refl, refl, ◌∙◌, any_where-update, arith, ◌∷◌, true, String, ◌≡◌, List, any_where,
  ℕ,
}

abbrev pub IsCovered : ℕ → ℕ → World → Type 0
IsCovered notification_id device_id w =
    any_where (for_target notification_id device_id) w.recipients ≡ true

module _ (nid did : ℕ) where
  covered-cons :
      (r : NotificationRecipient) (rs : List NotificationRecipient)
      → any_where (for_target nid did) rs ≡ true
      → any_where (for_target nid did) (r ∷ rs) ≡ true
  unfolding any_where
  covered-cons r rs h = ground arith

  Move-IsCovered :
      {E : ℕ → Type 0} {w v : World} → Move E w v → IsCovered nid did w → IsCovered nid did v
  Move-IsCovered (outside en er ed ep) h = rw er h
  Move-IsCovered (add_notification n k i p e) h = rw e h
  Move-IsCovered (edit_notification j f k e) h = rw e h
  Move-IsCovered {w = w} (add_recipient x t i b e) h = rw e (covered-cons x w.recipients h)
  Move-IsCovered {w = w} (edit_recipient j f allowed k e) h = rw e (
      any_where-update (for_target nid did) (recipient_has_id j) f w.recipients
        (λ a. rw ((k a).1, (k a).2) refl)
      ∙ h)
  Move-IsCovered (edit_device j s at e) h = rw e h

  pub Trace-IsCovered :
      {E : ℕ → Type 0} {w v : World} → Trace E w v → IsCovered nid did w → IsCovered nid did v
  Trace-IsCovered here h = h
  Trace-IsCovered (then_move t m) h = Move-IsCovered m (Trace-IsCovered t h)

  -- An inserted row is the first of its table.
  insert_ok :
      (x r : NotificationRecipient) (u v : World)
      → insert_recipient x u ≡ (ok r, v)
      → (x ≡ r) × (v.recipients ≡ x ∷ u.recipients)
  unfolding insert_recipient
  insert_ok x r u v h = go _ _ _ h
    where
      first : Result NotificationRecipient × World → NotificationRecipient
      first (ok a, z) = a
      first (err e, z) = x

      go :
          (a b c : Bool)
          → ◌≡◌ {A = Result NotificationRecipient × World}
              (if a
                then (err no_rows, u)
                else if b
                then (err (violation "notification_recipients_pkey"), u)
                else if c
                then (ok x, record u { recipients = x ∷ u.recipients })
                else (err (violation "notification_recipients_fkey"), u))
              (ok r, v)
          → (x ≡ r) × (v.recipients ≡ x ∷ u.recipients)
      go true b c k = cc
      go false true c k = cc
      go false false true k = (ap first k, sym (ap (λ z. z.1.recipients) k))
      go false false false k = cc

  new_first :
      (ptype : String) (u : World)
      → find_where (for_target nid did) (new_recipient nid did ptype u ∷ u.recipients)
        ≡ some (new_recipient nid did ptype u)
  unfolding find_where new_recipient
  new_first ptype u = rw (==_refl nid, ==_refl did) refl

  insert_finds :
      (ptype : String) (w v : World) (r : NotificationRecipient)
      → insert_notification_recipient nid did ptype w ≡ (ok r, v)
      → find_where (for_target nid did) v.recipients ≡ some r
  unfolding insert_notification_recipient
  insert_finds ptype w v r h =
      let (same, e) =
        insert_ok (new_recipient nid did ptype (advance w)) r (advance w) v (query_ok _ w r v h) in
      rw (e, sym same) (new_first ptype (advance w))

  get_finds :
      (w v : World) (r : NotificationRecipient)
      → get_recipient_by_notification_and_device nid did w ≡ (ok r, v)
      → find_where (for_target nid did) v.recipients ≡ some r
  unfolding get_recipient_by_notification_and_device
  get_finds w v r h = go _ refl (query_ok _ w r v h)
    where
      go :
          (o : Option NotificationRecipient)
          → find_where (for_target nid did) w.recipients ≡ o
          → ◌≡◌ {A = Result NotificationRecipient × World} (one_row o, advance w) (ok r, v)
          → find_where (for_target nid did) v.recipients ≡ some r
      go none e k = cc
      go (some x) e k =
          let same : x ≡ r = ok_eq x r (advance w) v k in
          rw (sym (ap (λ z. z.1.recipients) k), e, same) refl

  -- A device whose round succeeded has its recipient, which the round returned.
  pub get_or_create_finds :
      (ptype : String) (w v : World) (r : NotificationRecipient)
      → get_or_create_recipient nid did ptype w ≡ (ok r, v)
      → find_where (for_target nid did) v.recipients ≡ some r
  unfolding get_or_create_recipient or_existing
  get_or_create_finds ptype w v r h = go (insert_notification_recipient nid did ptype w) refl h
    where
      refused :
          (b : Bool) (e : Err) (u : World)
          → ◌≡◌ {A = Result NotificationRecipient × World}
              ((if b then get_recipient_by_notification_and_device nid did else fail e) u)
              (ok r, v)
          → find_where (for_target nid did) v.recipients ≡ some r
      refused true e u k = get_finds u v r k
      refused false e u k = cc

      go :
          (x : Result NotificationRecipient × World)
          → insert_notification_recipient nid did ptype w ≡ x
          → or_existing nid did x.0 x.1 ≡ (ok r, v)
          → find_where (for_target nid did) v.recipients ≡ some r
      go (ok a, u) e k = insert_finds ptype w v r (e ∙ k)
      go (err b, u) e k = refused (is_no_rows b) b u k

  pub get_or_create_covers :
      (ptype : String) (w v : World) (r : NotificationRecipient)
      → get_or_create_recipient nid did ptype w ≡ (ok r, v)
      → IsCovered nid did v
  unfolding new_recipient
  get_or_create_covers ptype w v r h =
      let there = get_or_create_finds ptype w v r h in
      find_where-any_other (for_target nid did) (for_target nid did) v.recipients r there
        (find_where_sound (for_target nid did) v.recipients r there)
