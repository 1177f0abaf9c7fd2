-- ===== src/Examples/Deliveries.antt =====
-- A request in a calm world, and the pushes that come of it.
use slay_push.Store.Notifications.{new_notification}
use slay_push.Dispatch.Reaches.{audience, Reaches}
use slay_push.Errors.{ok}
use slay_push.Store.{World}
use slay_push.Dispatch.Send.Live.{Unthrottled}
use slay_push.Examples.Calls.{req}
use slay_push.Store.Projects.{has_project}
use slay_push.Examples.{accepting, fresh_world, env}
use slay_push.Examples.Witnesses.{accepting_plain, adapter_or}
use slay_push.Dispatch.Reaches.Created.{create_notification-Reaches, ReadsBack}
use slay_push.Queue.{fanout_task, FanoutPayload, is_failure}
use slay_push.Dispatch.Create.{create_notification, has_no_targets}
use slay_push.Dispatch.Fanout.{handle_fanout, decode_data}
use slay_push.Base.{◌∷◌, sym, ap, ◌≡◌, refl, none, arith, [], any_where}
use slay_push.Store.WellFormed.{WellFormed}
use slay_push.Dispatch.Create.Idempotent.{row_of, Encodable}
use slay_push.Dispatch.Fanout.Runs.{Leaves, Calm}

fresh-WellFormed : WellFormed fresh_world
fresh-WellFormed = record { keys = tt; ids = tt; targets = tt; recipient_ids = tt; backed = tt }

env-Calm : Calm env
env-Calm = record {
  up = λ n. refl;
  accepts = λ n. refl;
  encodes = λ d. ("{}", refl);
  new_ids = λ n m same. omega (arith, same);
}

no_rows_leave : Leaves env 0 []
unfolding any_where
no_rows_leave = record { unused = λ n later. refl; room = tt }

abbrev first : Encodable req fresh_world
first = record {
  data_json = "{}";
  spec_json = "{}";
  payload = "{}";
  target_spec = "{}";
  data_encodes = refl;
  spec_encodes = refl;
  data_stores = refl;
  spec_stores = refl;
}

reads : ReadsBack 1 req fresh_world first none
unfolding decode_data
reads = record { data_reads = refl; spec_reads = refl }

fresh-Unthrottled : Unthrottled fresh_world
unfolding is_failure adapter_or
fresh-Unthrottled = record {
  unlimited = refl;
  taken = λ name ad h cred request n.
      let same : accepting ≡ ad = ap adapter_or h in rw (sym same) ((λ e. cc), refl, refl);
}

create_notification-Reaches_example :
    let row = row_of 1 req fresh_world first in
    let task : FanoutPayload = record { notification_id = row.id; project_id = 1 } in
    (u : World) × (create_notification 1 req fresh_world ≡ (ok row, u))
    × (u.fanouts ≡ fanout_task task ∷ [])
    × Reaches task row none u (handle_fanout task) (audience 1 req.spec fresh_world)
unfolding has_no_targets any_where has_project new_notification
create_notification-Reaches_example =
    create_notification-Reaches 1 req fresh_world first none fresh-WellFormed env-Calm no_rows_leave
      refl (record { new_key = refl; new_id = refl; in_project = refl }) reads accepting_plain
      fresh-Unthrottled
