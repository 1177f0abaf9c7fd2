-- ===== src/Dispatch/Create/Effects.antt =====
-- The changes of rows that CreateNotification makes.
use slay_push.Store.Effects.{create_notification_row-moves, get_by_key-moves}
use slay_push.Store.Monad.{advance}
use slay_push.Errors.{err, ok, Result}
use slay_push.Store.Moves.{Trace-advance, outside, then_move, Trace}
use slay_push.Store.Keeps.{keeping, Keeps}
use slay_push.Base.{refl, ℕ}
use slay_push.Queue.{fanout_task, FanoutPayload}
use slay_push.Queue.Enqueue.{log_fanout, enqueue, enqueue_fanout}
use slay_push.Dispatch.Create.{
  enqueue_new, after_insert, CreateNotificationRequest, create_notification,
}
use slay_push.Store.{Notification, EnqueueFate, World}

module _ {E : ℕ → Type 0} (w : World) where
  pub enqueue_fanout-moves : (p : FanoutPayload) → Keeps (Trace E w) (enqueue_fanout p)
  unfolding enqueue_fanout
  enqueue_fanout-moves p = record { keep = λ u t. go u t (u.env.enqueue_fate u.tick) }
    where
      go :
          (u : World)
          → Trace E w u
          → (f : EnqueueFate) → Trace E w (enqueue f (log_fanout (fanout_task p)) (advance u)).1
      go u t EnqueueFate.accepted = then_move t (outside refl refl refl refl)
      go u t EnqueueFate.conflict = Trace-advance w u t
      go u t (EnqueueFate.refused s) = Trace-advance w u t
      go u t (EnqueueFate.lost s) = then_move t (outside refl refl refl refl)

  enqueue_new-moves :
      (project_id : ℕ) (n : Notification) → Keeps (Trace E w) (enqueue_new project_id n)
  unfolding enqueue_new
  enqueue_new-moves project_id n = search (keeping, enqueue_fanout-moves)

  after_insert-moves :
      (project_id : ℕ) (req : CreateNotificationRequest) (r : Result Notification)
      → Keeps (Trace E w) (after_insert project_id req r)
  unfolding after_insert
  after_insert-moves project_id req (ok n) = enqueue_new-moves project_id n
  after_insert-moves project_id req (err e) = search (keeping, get_by_key-moves)

  pub create_notification-moves :
      (project_id : ℕ) (req : CreateNotificationRequest)
      → Keeps (Trace E w) (create_notification project_id req)
  unfolding create_notification
  create_notification-moves project_id req =
      search (keeping, create_notification_row-moves, after_insert-moves) depth 20
