-- ===== src/Dispatch/Reaches/Created.antt =====
-- From the request of a notification to the end of each of its send tasks.
use slay_push.Store.Moves.{here}
use slay_push.Dispatch.Create.Effects.{create_notification-moves}
use slay_push.Dispatch.Fanout.Tasks.{decode-env}
use slay_push.Dispatch.Send.Live.{Unthrottled}
use slay_push.Dispatch.Send.Done.{PlainAdapters}
use slay_push.Dispatch.Fanout.Finished.{Startable}
use slay_push.Dispatch.Reaches.{handle_fanout-Reaches, audience, Reaches, IsTargeted}
use slay_push.Dispatch.Create.Orphan.{create_first, Insertable}
use slay_push.Errors.{ok}
use slay_push.Dispatch.Fanout.Runs.{Leaves, Calm}
use slay_push.Store.Notifications.{new_notification}
use slay_push.Dispatch.Fanout.{handle_fanout, decode_data}
use slay_push.Store.WellFormed.{Trace-WellFormed, WellFormed}
use slay_push.Queue.{fanout_task, FanoutPayload}
use slay_push.Base.Json.{Data}
use slay_push.Dispatch.Create.Idempotent.{HasTargets, row_of, Encodable}
use slay_push.Store.{Notification, World}
use slay_push.Dispatch.Create.{create_notification, CreateNotificationRequest}
use slay_push.Base.{◌∙◌, refl, arith, ap, ==_refl, sym, ◌≡◌, ◌∷◌, find_where, any_where, suc, ℕ}

module _ (project_id : ℕ) (req : CreateNotificationRequest) (w : World) (e : Encodable req w)
    (fields : Data) where
  abbrev row : Notification
  row = row_of project_id req w e

  abbrev task : FanoutPayload
  task = record { notification_id = row.id; project_id = project_id }

  abbrev created : World
  created = record w {
    tick = suc (suc w.tick);
    notifications = row ∷ w.notifications;
    fanouts = fanout_task task ∷ w.fanouts;
  }

  -- What is stored is read back: some data, and the spec of the request.
  pub record ReadsBack : Type 0 where
    pub data_reads : (decode_data e.payload w).0 ≡ ok fields
    pub spec_reads : w.env.unmarshal_spec e.target_spec ≡ ok req.spec

  created-WellFormed :
      create_notification project_id req w ≡ (ok row, created) → WellFormed w → WellFormed created
  created-WellFormed made wf = rw (sym (ap (λ x. x.1) made)) (
      Trace-WellFormed {E = λ _. Unit {0}}
        ((create_notification-moves w project_id req).keep w here) wf)

  targeted : HasTargets project_id req → ReadsBack → IsTargeted task row req.spec created
  unfolding new_notification find_where
  targeted some_target back = record {
    found = rw (==_refl row.id, ==_refl project_id) refl;
    targets = back.spec_reads;
    some_target = some_target;
  }

  started : Calm w.env → Leaves w.env w.tick w.recipients → ReadsBack → Startable row fields created
  unfolding new_notification any_where
  started calm rows back = record {
    calm = calm;
    rows = record { unused = λ k more. rows.unused k (omega arith); room = rows.room };
    there = rw (==_refl row.id) refl;
    decodes = decode-env e.payload w created refl ∙ back.data_reads;
  }

  -- Where statements run, asynq takes every task, no UUID is drawn twice, what is stored is read
  -- back, no adapter makes an error of asynq's, nothing throttles and the recipients have room for
  -- more attempts: a request with a new key and some target returns a new row and queues one fanout
  -- task; and that task, when it is handled, returns no error and gives each device of the audience a
  -- recipient and a send task, which ends within its retries and one delivery more with the recipient
  -- in a terminal state.
  pub create_notification-Reaches :
      WellFormed w
      → Calm w.env
      → Leaves w.env w.tick w.recipients
      → HasTargets project_id req
      → Insertable row w
      → ReadsBack
      → PlainAdapters w
      → Unthrottled w
      → (u : World) × (create_notification project_id req w ≡ (ok row, u))
        × (u.fanouts ≡ fanout_task task ∷ w.fanouts)
        × Reaches task row fields u (handle_fanout task) (audience project_id req.spec w)
  create_notification-Reaches wf calm rows some_target new back plain free =
      let made =
        create_first project_id req w e some_target calm.up new (calm.accepts (suc w.tick)) in
      (
        created,
        made,
        refl,
        handle_fanout-Reaches task row req.spec fields created (created-WellFormed made wf)
            (started calm rows back) (targeted some_target back) plain
            (record { unlimited = free.unlimited; taken = free.taken }),
      )
