-- ===== src/Dispatch/Create/Orphan.antt =====
-- The first call with a key, when asynq accepts its fanout task and when it refuses it.
use slay_push.Errors.{other, wrapped, err, ok}
use slay_push.Queue.Enqueue.{enqueue_fanout}
use slay_push.Store.Projects.{has_project}
use slay_push.Store.Fates.{AllRun}
use slay_push.Store.Notifications.{same_id, create_notification_row, same_key, insert_notification}
use slay_push.Queue.{fanout_task, FanoutPayload}
use slay_push.Dispatch.Create.Idempotent.{
  row_inserts, create_unfolds, row_of, HasTargets, Encodable,
}
use slay_push.Dispatch.Create.{
  params, create_notification, enqueue_new, after_insert, CreateNotificationRequest,
}
use slay_push.Base.{refl, ◌∙◌, true, String, false, ◌≡◌, ◌∷◌, suc, any_where, ℕ}
use slay_push.Store.{EnqueueFate, World, Notification}

-- The key is new in the project, the drawn UUID is new, and the project exists.
pub record Insertable (n : Notification) (w : World) : Type 0 where
  pub new_key : any_where (same_key n) w.notifications ≡ false
  pub new_id : any_where (same_id n) w.notifications ≡ false
  pub in_project : has_project n.project_id w ≡ true

module _ (project_id : ℕ) (req : CreateNotificationRequest) (w : World) (e : Encodable req w) where
  abbrev row : Notification
  row = row_of project_id req w e

  abbrev inserted : World
  inserted = record w { tick = suc w.tick; notifications = row ∷ w.notifications }

  abbrev row_payload : FanoutPayload
  row_payload = record { notification_id = row.id; project_id = project_id }

  insert_row :
      AllRun w
      → Insertable row w
      → create_notification_row (params project_id req e.data_json e.spec_json) w
        ≡ (ok row, inserted)
  unfolding insert_notification has_project
  insert_row up i = row_inserts project_id req w e up ∙ rw (i.new_key, i.new_id, i.in_project) refl

  after_insert-row :
      HasTargets project_id req
      → AllRun w
      → Insertable row w
      → create_notification project_id req w ≡ after_insert project_id req (ok row) inserted
  after_insert-row t up i = create_unfolds project_id req w e t ∙ rw (insert_row up i) refl

  -- When asynq accepts the task, the call returns the new row, which is pending, and the one change
  -- beside it is one fanout task for it on the fanout queue.
  pub create_first :
      HasTargets project_id req
      → AllRun w
      → Insertable row w
      → w.env.enqueue_fate (suc w.tick) ≡ EnqueueFate.accepted
      → create_notification project_id req w ≡ (
        ok row,
        record inserted { tick = suc (suc w.tick); fanouts = fanout_task row_payload ∷ w.fanouts },
      )
  unfolding after_insert enqueue_new enqueue_fanout
  create_first t up i yes_fate = after_insert-row t up i ∙ rw yes_fate refl

  -- When asynq refuses the task, the call returns an error and leaves the row behind.
  pub create_refused :
      (s : String)
      → HasTargets project_id req
      → AllRun w
      → Insertable row w
      → w.env.enqueue_fate (suc w.tick) ≡ EnqueueFate.refused s
      → create_notification project_id req w
        ≡ (err (wrapped "enqueue fanout" (other s)), record inserted { tick = suc (suc w.tick) })
  unfolding after_insert enqueue_new enqueue_fanout
  create_refused s t up i no_fate = after_insert-row t up i ∙ rw no_fate refl
