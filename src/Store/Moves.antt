-- ===== src/Store/Moves.antt =====
-- The changes of rows that the statements of the pipeline make, as a relation between worlds. A
-- handler's effect is a chain of them, so what every change keeps, every handler keeps. `E` says
-- which recipients' rows may be edited.
use slay_push.Store.Devices.{set_status, device_has_id}
use slay_push.Store.Recipients.{recipient_has_id, same_recipient, same_target}
use slay_push.Store.Projects.{has_project}
use slay_push.Store.Notifications.{has_id, same_id, same_key}
use slay_push.Base.{refl, update_where, ℕ, ◌∷◌, true, false, any_where, ◌≡◌}
use slay_push.Store.Keeps.{Keeps-query, Keeps}
use slay_push.Store.{DeviceStatus, World, NotificationRecipient, Notification}
use slay_push.Store.Monad.{query, advance, M}

-- An update that leaves the columns of the keys alone.
abbrev pub KeepsNotificationKeys : (Notification → Notification) → Type 0
KeepsNotificationKeys f =
    (n : Notification)
    → ((f n).id ≡ n.id)
      × ((f n).project_id ≡ n.project_id)
      × ((f n).idempotency_key ≡ n.idempotency_key)

abbrev pub KeepsRecipientKeys : (NotificationRecipient → NotificationRecipient) → Type 0
KeepsRecipientKeys f =
    (r : NotificationRecipient)
    → ((f r).id ≡ r.id)
      × ((f r).notification_id ≡ r.notification_id)
      × ((f r).device_id ≡ r.device_id)

pub data Move (E : ℕ → Type 0) (w v : World) : Type 0 where
  -- A contact with the outside, a task queued or a push sent: no row changes.
  outside :
      v.notifications ≡ w.notifications
      → v.recipients ≡ w.recipients
      → v.devices ≡ w.devices
      → v.projects ≡ w.projects
      → Move E w v
  add_notification :
      (n : Notification)
      → any_where (same_key n) w.notifications ≡ false
      → any_where (same_id n) w.notifications ≡ false
      → has_project n.project_id w ≡ true
      → v ≡ record w { notifications = n ∷ w.notifications }
      → Move E w v
  edit_notification :
      (id : ℕ) (f : Notification → Notification)
      → KeepsNotificationKeys f
      → v ≡ record w { notifications = update_where (has_id id) f w.notifications }
      → Move E w v
  add_recipient :
      (r : NotificationRecipient)
      → any_where (same_target r) w.recipients ≡ false
      → any_where (same_recipient r) w.recipients ≡ false
      → any_where (has_id r.notification_id) w.notifications ≡ true
      → v ≡ record w { recipients = r ∷ w.recipients }
      → Move E w v
  edit_recipient :
      (id : ℕ) (f : NotificationRecipient → NotificationRecipient)
      → E id
      → KeepsRecipientKeys f
      → v ≡ record w { recipients = update_where (recipient_has_id id) f w.recipients }
      → Move E w v
  edit_device :
      (id : ℕ) (status : DeviceStatus) (at : ℕ)
      → v ≡ record w { devices = update_where (device_has_id id) (set_status status at) w.devices }
      → Move E w v

pub data Trace (E : ℕ → Type 0) (w : World) : World → Type 0 where
  here : Trace E w w
  then_move : {u v : World} → Trace E w u → Move E u v → Trace E w v

module _ {E : ℕ → Type 0} (w : World) where
  pub Trace-advance : (u : World) → Trace E w u → Trace E w (advance u)
  Trace-advance u t = then_move t (outside refl refl refl refl)

  pub query-moves :
      {A : Type 0} (q : M A)
      → ((u : World) → Trace E w u → Trace E w (q u).1)
      → Keeps (Trace E w) (query q)
  query-moves q h = Keeps-query q h Trace-advance
