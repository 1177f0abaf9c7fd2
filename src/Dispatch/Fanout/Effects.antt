-- ===== src/Dispatch/Fanout/Effects.antt =====
-- The changes of rows that HandleFanout makes.
use slay_push.Store.Monad.{advance}
use slay_push.Store.Effects.{
  set_notification_totals-moves, set_notification_status-moves, get_recipient_by_target-moves,
  get_active_devices-moves, insert_notification_recipient-moves, get_notification-moves,
  get_devices_by_ids-moves, complete_notification-moves,
}
use slay_push.Store.Moves.{Trace-advance, outside, then_move, Trace}
use slay_push.Errors.{err, ok, Result}
use slay_push.Store.Keeps.{Keeps-bind, keeping, Keeps}
use slay_push.Base.{refl, ◌+◌, [], ◌∷◌, List, String, ℕ}
use slay_push.Queue.{send_task, SendPayload, FanoutPayload}
use slay_push.Targeting.{resolve}
use slay_push.Dispatch.Fanout.{
  Content, or_give_up, or_existing, fanout_to, decode_data, send_to_devices, handle_fanout,
  get_or_create_recipient, fanout_one, fanout_loop,
}
use slay_push.Queue.Enqueue.{send_now, log_send, enqueue, enqueue_send}
use slay_push.Store.{EnqueueFate, NotificationRecipient, Device, Spec, Notification, World}

module _ {E : ℕ → Type 0} (w : World) where
  send_now-moves : (p : SendPayload) → Keeps (Trace E w) (send_now p)
  unfolding send_now
  send_now-moves p = record { keep = λ u t. go u t (u.env.enqueue_fate u.tick) }
    where
      go :
          (u : World)
          → Trace E w u
          → (f : EnqueueFate) → Trace E w (enqueue f (log_send (send_task p)) (advance u)).1
      go u t EnqueueFate.accepted = then_move t (outside refl refl refl refl)
      go u t EnqueueFate.conflict = Trace-advance w u t
      go u t (EnqueueFate.refused s) = Trace-advance w u t
      go u t (EnqueueFate.lost s) = then_move t (outside refl refl refl refl)

  pub enqueue_send-moves : (p : SendPayload) → Keeps (Trace E w) (enqueue_send p)
  unfolding enqueue_send
  enqueue_send-moves p = search (keeping, send_now-moves)

  or_existing-moves :
      (nid did : ℕ) (r : Result NotificationRecipient) → Keeps (Trace E w) (or_existing nid did r)
  unfolding or_existing
  or_existing-moves nid did (ok r) = search keeping
  or_existing-moves nid did (err e) = search (keeping, get_recipient_by_target-moves)

  pub get_or_create_recipient-moves :
      (nid did : ℕ) (ptype : String) → Keeps (Trace E w) (get_or_create_recipient nid did ptype)
  unfolding get_or_create_recipient
  get_or_create_recipient-moves nid did ptype =
      search (keeping, insert_notification_recipient-moves, or_existing-moves)

  fanout_one-moves :
      (p : FanoutPayload) (nid : ℕ) (c : Content) (d : Device)
      → Keeps (Trace E w) (fanout_one p nid c d)
  unfolding fanout_one
  fanout_one-moves p nid c d =
      search (keeping, get_or_create_recipient-moves, enqueue_send-moves) depth 9

  pub fanout_loop-moves :
      (p : FanoutPayload) (nid : ℕ) (c : Content) (k : ℕ) (ds : List Device)
      → Keeps (Trace E w) (fanout_loop p nid c k ds)
  unfolding fanout_loop
  fanout_loop-moves p nid c k [] = search keeping
  fanout_loop-moves p nid c k (d ∷ ds) =
      Keeps-bind (fanout_one-moves p nid c d) (λ _. fanout_loop-moves p nid c (k + 1) ds)

  pub decode_data-moves : (s : String) → Keeps (Trace E w) (decode_data s)
  unfolding decode_data
  decode_data-moves s = search keeping depth 9

  pub send_to_devices-moves :
      (p : FanoutPayload) (n : Notification) (ids : List ℕ)
      → Keeps (Trace E w) (send_to_devices p n ids)
  unfolding send_to_devices
  send_to_devices-moves p n ids =
      search
        (
          keeping, get_devices_by_ids-moves, decode_data-moves, fanout_loop-moves,
          set_notification_totals-moves, set_notification_status-moves,
        )
        depth 20

  fanout_to-moves :
      (p : FanoutPayload) (n : Notification) (ids : List ℕ) → Keeps (Trace E w) (fanout_to p n ids)
  unfolding fanout_to
  fanout_to-moves p n [] = complete_notification-moves w n.id _
  fanout_to-moves p n (id ∷ ids) = send_to_devices-moves p n (id ∷ ids)

  or_give_up-moves :
      {A : Type 0} (id : ℕ) (text : String) (r : Result A)
      → Keeps (Trace E w) (or_give_up id text r)
  unfolding or_give_up
  or_give_up-moves id text (ok a) = search keeping
  or_give_up-moves id text (err e) = search (keeping, set_notification_status-moves) depth 9

  resolve-moves : (project_id : ℕ) (s : Spec) → Keeps (Trace E w) (resolve project_id s)
  unfolding resolve
  resolve-moves project_id s =
      search (keeping, get_devices_by_ids-moves, get_active_devices-moves) depth 12

  pub handle_fanout-moves : (p : FanoutPayload) → Keeps (Trace E w) (handle_fanout p)
  unfolding handle_fanout
  handle_fanout-moves p =
      search (keeping, get_notification-moves, or_give_up-moves, resolve-moves, fanout_to-moves)
        depth 20
