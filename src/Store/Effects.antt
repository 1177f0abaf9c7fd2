-- ===== src/Store/Effects.antt =====
-- Each statement of the pipeline makes one of the moves, or none.
use slay_push.Store.Projects.{has_project}
use slay_push.Store.Monad.{query}
use slay_push.Store.Moves.{
  add_recipient, add_notification, edit_recipient, edit_notification, edit_device, then_move,
  query-moves, Trace,
}
use slay_push.Base.{
  refl, none, inr, ltb, inl, find_where, any_where, some, Option-cases, Bool-cases, String, Option,
  List, ℕ,
}
use slay_push.Store.Keeps.{Keeps}
use slay_push.Store.Recipients.{
  same_recipient, same_target, recipient_has_id, max_int, new_recipient, to_sent, to_failed,
  update_recipients, to_sending, mark_sending_found, mark_recipient_sent, mark_recipient_sending,
  mark_recipient_failed, insert_recipient, insert_notification_recipient,
  get_recipient_by_notification_and_device, get_notification_recipient,
}
use slay_push.Store.Credentials.{get_active_provider_credential}
use slay_push.Store.Devices.{
  device_has_id, update_devices, mark_device_status, get_devices_by_ids,
  get_active_devices_by_subscriber_external_ids,
}
use slay_push.Store.Notifications.{
  has_id, same_id, new_notification, same_key, CreateNotificationParams, set_notification_totals,
  set_notification_status, insert_notification, get_notification_by_idempotency_key,
  get_notification, create_notification_stmt, create_notification_row, complete_notification,
}
use slay_push.Errors.{Result}
use slay_push.Store.{NotificationStatus, DeviceStatus, NotificationRecipient, Notification, World}

module _ {E : ℕ → Type 0} (w : World) where
  insert_notification-moves :
      (n : Notification) (u : World) → Trace E w u → Trace E w (insert_notification n u).1
  unfolding insert_notification
  insert_notification-moves n u t = elim (Bool-cases (any_where (same_key n) u.notifications)) [
    | inl taken ↦ rw (taken, insert_notification) t
    | inr k ↦ elim (Bool-cases (any_where (same_id n) u.notifications)) [
      | inl drawn ↦ rw (k, drawn, insert_notification) t
      | inr i ↦ elim (Bool-cases (has_project n.project_id u)) [
        | inl p ↦ rw (k, i, p, insert_notification) (then_move t (add_notification n k i p refl))
        | inr p ↦ rw (k, i, p, insert_notification) t
      ]
    ]
  ]

  stmt-moves :
      (p : CreateNotificationParams) (u : World)
      → Trace E w u
      → Trace E w (create_notification_stmt p u).1
  unfolding create_notification_stmt
  stmt-moves p u t = elim (Option-cases (u.env.jsonb p.payload)) [
    | inl bad ↦ rw (bad, create_notification_stmt) t
    | inr (a, e) ↦ elim (Option-cases (u.env.jsonb p.target_spec)) [
      | inl bad ↦ rw (e, bad, create_notification_stmt) t
      | inr (b, f) ↦
          rw (e, f, create_notification_stmt)
            (insert_notification-moves (new_notification p a b u) u t)
    ]
  ]

  pub create_notification_row-moves :
      (p : CreateNotificationParams) → Keeps (Trace E w) (create_notification_row p)
  unfolding create_notification_row
  create_notification_row-moves p = query-moves w (create_notification_stmt p) (stmt-moves p)

  -- A statement that only reads.
  pub read-moves : {A : Type 0} (f : World → Result A) → Keeps (Trace E w) (query (λ u. (f u, u)))
  read-moves f = query-moves w (λ u. (f u, u)) (λ u t. t)

  pub get_notification-moves :
      (id project_id : ℕ) → Keeps (Trace E w) (get_notification id project_id)
  unfolding get_notification
  get_notification-moves id project_id = read-moves _

  pub get_by_key-moves :
      (project_id : ℕ) (key : Option String)
      → Keeps (Trace E w) (get_notification_by_idempotency_key project_id key)
  unfolding get_notification_by_idempotency_key
  get_by_key-moves project_id key = read-moves _

  pub set_notification_status-moves :
      (id : ℕ) (s : NotificationStatus) → Keeps (Trace E w) (set_notification_status id s)
  unfolding set_notification_status
  set_notification_status-moves id s =
      query-moves w _ (λ u t. then_move t (edit_notification id _ (λ n. (refl, refl, refl)) refl))

  pub set_notification_totals-moves :
      (id total : ℕ) → Keeps (Trace E w) (set_notification_totals id total)
  unfolding set_notification_totals
  set_notification_totals-moves id total =
      query-moves w _ (λ u t. then_move t (edit_notification id _ (λ n. (refl, refl, refl)) refl))

  pub complete_notification-moves :
      (id : ℕ) (s : NotificationStatus) → Keeps (Trace E w) (complete_notification id s)
  unfolding complete_notification
  complete_notification-moves id s =
      query-moves w _ (λ u t. then_move t (edit_notification id _ (λ n. (refl, refl, refl)) refl))

  insert_recipient-moves :
      (r : NotificationRecipient) (u : World) → Trace E w u → Trace E w (insert_recipient r u).1
  unfolding insert_recipient
  insert_recipient-moves r u t = elim (Bool-cases (any_where (same_target r) u.recipients)) [
    | inl taken ↦ rw (taken, insert_recipient) t
    | inr k ↦ elim (Bool-cases (any_where (same_recipient r) u.recipients)) [
      | inl drawn ↦ rw (k, drawn, insert_recipient) t
      | inr i ↦ elim (Bool-cases (any_where (has_id r.notification_id) u.notifications)) [
        | inr n ↦ rw (k, i, n, insert_recipient) t
        | inl n ↦ elim (Bool-cases (any_where (device_has_id r.device_id) u.devices)) [
          | inl d ↦ rw (k, i, n, d, insert_recipient) (then_move t (add_recipient r k i n refl))
          | inr d ↦ rw (k, i, n, d, insert_recipient) t
        ]
      ]
    ]
  ]

  pub insert_notification_recipient-moves :
      (nid did : ℕ) (ptype : String)
      → Keeps (Trace E w) (insert_notification_recipient nid did ptype)
  unfolding insert_notification_recipient
  insert_notification_recipient-moves nid did ptype =
      query-moves w _ (λ u t. insert_recipient-moves (new_recipient nid did ptype u) u t)

  pub get_recipient_by_target-moves :
      (nid did : ℕ) → Keeps (Trace E w) (get_recipient_by_notification_and_device nid did)
  unfolding get_recipient_by_notification_and_device
  get_recipient_by_target-moves nid did = read-moves _

  pub get_notification_recipient-moves :
      (id : ℕ) → Keeps (Trace E w) (get_notification_recipient id)
  unfolding get_notification_recipient
  get_notification_recipient-moves id = read-moves _

  mark_sending-moves :
      (id : ℕ) (e : E id)
      → (o : Option NotificationRecipient) (u : World) → Trace E w u
      → Trace E w (mark_sending_found o id u).1
  unfolding mark_sending_found to_sending update_recipients
  mark_sending-moves id e none u t = t
  mark_sending-moves id e (some r) u t = elim (Bool-cases (ltb r.attempt_count max_int)) [
    | inl room ↦
        rw (room, mark_sending_found)
          (then_move t (edit_recipient id to_sending e (λ x. (refl, refl, refl)) refl))
    | inr full ↦ rw (full, mark_sending_found) t
  ]

  pub mark_recipient_sending-moves : (id : ℕ) → E id → Keeps (Trace E w) (mark_recipient_sending id)
  unfolding mark_recipient_sending
  mark_recipient_sending-moves id e =
      query-moves w _
        (λ u t. mark_sending-moves id e (find_where (recipient_has_id id) u.recipients) u t)

  pub mark_recipient_sent-moves :
      (id : ℕ) → E id → (m : Option String) → Keeps (Trace E w) (mark_recipient_sent id m)
  unfolding mark_recipient_sent update_recipients to_sent
  mark_recipient_sent-moves id e m =
      query-moves w _ (λ u t. then_move t (edit_recipient id _ e (λ x. (refl, refl, refl)) refl))

  pub mark_recipient_failed-moves :
      (id : ℕ) → E id → (c m : Option String) → Keeps (Trace E w) (mark_recipient_failed id c m)
  unfolding mark_recipient_failed update_recipients to_failed
  mark_recipient_failed-moves id e c m =
      query-moves w _ (λ u t. then_move t (edit_recipient id _ e (λ x. (refl, refl, refl)) refl))

  pub mark_device_status-moves :
      (id : ℕ) (s : DeviceStatus) → Keeps (Trace E w) (mark_device_status id s)
  unfolding mark_device_status update_devices
  mark_device_status-moves id s = query-moves w _ (λ u t. then_move t (edit_device id s _ refl))

  pub get_devices_by_ids-moves :
      (project_id : ℕ) (ids : List ℕ) → Keeps (Trace E w) (get_devices_by_ids project_id ids)
  unfolding get_devices_by_ids
  get_devices_by_ids-moves project_id ids = read-moves _

  pub get_active_devices-moves :
      (project_id : ℕ) (xs : List String)
      → Keeps (Trace E w) (get_active_devices_by_subscriber_external_ids project_id xs)
  unfolding get_active_devices_by_subscriber_external_ids
  get_active_devices-moves project_id xs = read-moves _

  pub get_credential-moves :
      (project_id : ℕ) (ptype env : String)
      → Keeps (Trace E w) (get_active_provider_credential project_id ptype env)
  unfolding get_active_provider_credential
  get_credential-moves project_id ptype env = read-moves _
