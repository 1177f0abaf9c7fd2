-- ===== src/Dispatch/Fanout/Queued.antt =====
-- The send tasks that a fanout queues.
use slay_push.Store.Monad.{advance}
use slay_push.Errors.{err, ok, Result}
use slay_push.Store.Keeps.{Keeps-bind, keeping, Keeps-query, Keeps}
use slay_push.Store.Notifications.{
  update_notifications, set_notification_totals, set_notification_status,
}
use slay_push.Store.Recipients.{
  same_recipient, same_target, insert_recipient, insert_notification_recipient,
  get_recipient_by_notification_and_device, for_target,
}
use slay_push.Queue.Enqueue.{log_send, enqueue, send_now, enqueue_send}
use slay_push.Dispatch.Fanout.{
  send_payload, or_existing, get_or_create_recipient, fanout_one, fanout_loop, Content,
}
use slay_push.Base.{
  find_where-any_other, arith, true, find_where_sound, false, ◌&&◌, ◌==◌, [], inr, ◌+◌, inl, ◌∷◌,
  some, any_where, ◌≡◌, String, List, Bool-cases, find_where, ◌≢◌, ℕ,
}
use slay_push.Queue.{send_task, SendPayload, Task, FanoutPayload}
use slay_push.Store.{
  Notification, NotificationStatus, EnqueueFate, Device, NotificationRecipient, World, Env,
}
use mathlib.Core.List.{Memᴰ}

-- The device's recipient is there, and asynq has taken the task for it.
abbrev pub IsQueued : FanoutPayload → ℕ → Content → Device → World → Type 0
IsQueued p nid c d w =
    (r : NotificationRecipient) × (find_where (for_target nid d.id) w.recipients ≡ some r)
    × Memᴰ (send_task (send_payload p c r d)) w.sends

-- No reply of asynq's says that the id of a task is taken: no recipient has a task yet.
abbrev pub NoConflict : World → Type 0
NoConflict w = (n : ℕ) → w.env.enqueue_fate n ≢ EnqueueFate.conflict

-- What the statements and the enqueues of a fanout's send stage leave as it is.
pub record Stable (P : World → Type 0) : Type 0 where
  pub waits : (u : World) → P u → P (advance u)
  pub inserts :
      (x : NotificationRecipient) (u : World)
      → any_where (same_target x) u.recipients ≡ false
      → P u
      → P (record u { recipients = x ∷ u.recipients })
  pub sends_one : (t : Task SendPayload) (u : World) → P u → P (record u { sends = t ∷ u.sends })
  pub notes : (ns : List Notification) (u : World) → P u → P (record u { notifications = ns })

module _ {P : World → Type 0} (st : Stable P) where
  insert_recipient-Keeps :
      (x : NotificationRecipient) (u : World) → P u → P (insert_recipient x u).1
  unfolding insert_recipient
  insert_recipient-Keeps x u h = elim (Bool-cases (any_where (same_target x) u.recipients)) [
    | inl taken ↦ rw (insert_recipient, taken) h
    | inr new ↦ elim (Bool-cases (any_where (same_recipient x) u.recipients)) [
      | inl taken ↦ rw (insert_recipient, new, taken) h
      | inr fresh ↦
          elim (Bool-cases (
            any_where (λ n. n.id == x.notification_id) u.notifications
            && any_where (λ d. d.id == x.device_id) u.devices)) [
              | inr orphan ↦ rw (insert_recipient, new, fresh, orphan) h
              | inl backed ↦ rw (insert_recipient, new, fresh, backed) (st.inserts x u new h)
            ]
    ]
  ]

  insert-Keeps : (n d : ℕ) (ptype : String) → Keeps P (insert_notification_recipient n d ptype)
  unfolding insert_notification_recipient
  insert-Keeps n d ptype = Keeps-query _ (λ u h. insert_recipient-Keeps _ u h) st.waits

  get_recipient-Keeps : (n d : ℕ) → Keeps P (get_recipient_by_notification_and_device n d)
  unfolding get_recipient_by_notification_and_device
  get_recipient-Keeps n d = Keeps-query _ (λ u h. h) st.waits

  or_existing-Keeps : (n d : ℕ) (x : Result NotificationRecipient) → Keeps P (or_existing n d x)
  unfolding or_existing
  or_existing-Keeps n d (ok x) = search keeping
  or_existing-Keeps n d (err x) = search (keeping, get_recipient-Keeps)

  pub get_or_create-Keeps : (n d : ℕ) (ptype : String) → Keeps P (get_or_create_recipient n d ptype)
  unfolding get_or_create_recipient
  get_or_create-Keeps n d ptype = search (keeping, insert-Keeps, or_existing-Keeps)

  send_now-Keeps : (p : SendPayload) → Keeps P (send_now p)
  unfolding send_now
  send_now-Keeps p = record { keep = λ u h. go u h (u.env.enqueue_fate u.tick) }
    where
      go :
          (u : World)
          → P u
          → (f : EnqueueFate) → P (enqueue f (log_send (send_task p)) (advance u)).1
      go u h EnqueueFate.accepted = st.sends_one _ _ (st.waits u h)
      go u h EnqueueFate.conflict = st.waits u h
      go u h (EnqueueFate.refused s) = st.waits u h
      go u h (EnqueueFate.lost s) = st.sends_one _ _ (st.waits u h)

  enqueue_send-Keeps : (p : SendPayload) → Keeps P (enqueue_send p)
  unfolding enqueue_send
  enqueue_send-Keeps p = search (keeping, send_now-Keeps)

  pub fanout_one-Keeps :
      (p : FanoutPayload) (n : ℕ) (c : Content) (d : Device) → Keeps P (fanout_one p n c d)
  unfolding fanout_one
  fanout_one-Keeps p n c d = search (keeping, get_or_create-Keeps, enqueue_send-Keeps) depth 9

  pub fanout_loop-Keeps :
      (p : FanoutPayload) (n : ℕ) (c : Content) (k : ℕ) (ds : List Device)
      → Keeps P (fanout_loop p n c k ds)
  unfolding fanout_loop
  fanout_loop-Keeps p n c k [] = search keeping
  fanout_loop-Keeps p n c k (d ∷ ds) =
      Keeps-bind (fanout_one-Keeps p n c d) (λ x. fanout_loop-Keeps p n c (k + 1) ds)

  pub totals-Keeps : (n total : ℕ) → Keeps P (set_notification_totals n total)
  unfolding set_notification_totals update_notifications
  totals-Keeps n total = Keeps-query _ (λ u h. st.notes _ u h) st.waits

  pub status-Keeps : (n : ℕ) (s : NotificationStatus) → Keeps P (set_notification_status n s)
  unfolding set_notification_status update_notifications
  status-Keeps n s = Keeps-query _ (λ u h. st.notes _ u h) st.waits

pub env-Stable : (e : Env) → Stable (λ u. u.env ≡ e)
env-Stable e = record {
  waits = λ u h. h;
  inserts = λ x u new h. h;
  sends_one = λ t u h. h;
  notes = λ ns u h. h;
}

module _ (p : FanoutPayload) (nid : ℕ) (c : Content) (d : Device) where
  other_target :
      (x r : NotificationRecipient) (rs : List NotificationRecipient)
      → any_where (same_target x) rs ≡ false
      → find_where (for_target nid d.id) rs ≡ some r
      → for_target nid d.id x ≡ false
  other_target x r rs new h = elim (Bool-cases (for_target nid d.id x)) [
    | inr other ↦ other
    | inl same ↦
        let there = find_where_sound (for_target nid d.id) rs r h in
        let clash : same_target x r ≡ true = ground arith in
        let k = find_where-any_other (for_target nid d.id) (same_target x) rs r h clash in cc
  ]

  still_first :
      (x r : NotificationRecipient) (rs : List NotificationRecipient)
      → any_where (same_target x) rs ≡ false
      → find_where (for_target nid d.id) rs ≡ some r
      → find_where (for_target nid d.id) (x ∷ rs) ≡ some r
  unfolding find_where
  still_first x r rs new h = rw (other_target x r rs new h) h

  -- A device whose task is queued keeps it.
  pub IsQueued-Stable : Stable (IsQueued p nid c d)
  IsQueued-Stable = record {
    waits = λ u h. h;
    inserts = λ x u new (r, f, t). (r, still_first x r u.recipients new f, t);
    sends_one = λ t u (r, f, m). (r, f, Memᴰ.tail m);
    notes = λ ns u h. h;
  }
