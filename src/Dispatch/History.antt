-- ===== src/Dispatch/History.antt =====
-- Any history of handler calls, over any fates of the calls that leave the process.
use slay_push.Dispatch.Send.Effects.{handle_send-moves}
use slay_push.Dispatch.Fanout.Effects.{handle_fanout-moves}
use slay_push.Store.Moves.{here}
use slay_push.Dispatch.Send.{handle_send}
use slay_push.Dispatch.Create.Effects.{create_notification-moves}
use slay_push.Dispatch.{Attempt}
use slay_push.Dispatch.Fanout.{handle_fanout}
use slay_push.Queue.{SendPayload, FanoutPayload}
use slay_push.Store.WellFormed.{Trace-WellFormed, WellFormed}
use slay_push.Dispatch.Create.{create_notification, CreateNotificationRequest}
use slay_push.Store.{World}
use slay_push.Base.{[], ◌∷◌, ℕ, List}

-- A handler call; what becomes of its result is asynq's or the client's.
pub data Op : Type 0 where
  creates : ℕ → CreateNotificationRequest → Op
  fans_out : FanoutPayload → Op
  sends_to : Attempt → SendPayload → Op

unfoldable pub step : Op → World → World
step (creates project_id req) w = (create_notification project_id req w).1
step (fans_out p) w = (handle_fanout p w).1
step (sends_to a p) w = (handle_send a p w).1

unfoldable pub run : List Op → World → World
run [] w = w
run (op ∷ ops) w = run ops (step op w)

step-WellFormed : (op : Op) (w : World) → WellFormed w → WellFormed (step op w)
unfolding step
step-WellFormed (creates project_id req) w h =
    Trace-WellFormed {E = λ _. Unit {0}} ((create_notification-moves w project_id req).keep w here)
      h
step-WellFormed (fans_out p) w h =
    Trace-WellFormed {E = λ _. Unit {0}} ((handle_fanout-moves w p).keep w here) h
step-WellFormed (sends_to a p) w h =
    Trace-WellFormed {E = λ _. Unit {0}} ((handle_send-moves w p tt a).keep w here) h

-- After any history of CreateNotification, HandleFanout and HandleSend calls from a world whose keys
-- are in order, with any statement refused or its reply lost on the way: no two notifications have
-- one id or one non-null idempotency key in a project, no two recipients have one id or one
-- notification and device, and each recipient's notification exists.
pub run-WellFormed : (ops : List Op) (w : World) → WellFormed w → WellFormed (run ops w)
unfolding run
run-WellFormed [] w h = h
run-WellFormed (op ∷ ops) w h = run-WellFormed ops (step op w) (step-WellFormed op w h)
