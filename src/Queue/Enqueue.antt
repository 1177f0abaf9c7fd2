-- ===== src/Queue/Enqueue.antt =====
-- EnqueueFanout and EnqueueSend of internal/queue/queue.go. The queue itself is asynq's: the world
-- keeps the tasks that it accepted, and its replies are given.
use slay_push.Base.{if◌then◌else◌, ◌∷◌}
use slay_push.Store.Monad.{of_result, asks, ◌>>=◌, advance, M}
use slay_push.Errors.{other, task_id_conflict, err, ok, is_task_id_conflict, Result}
use slay_push.Queue.{send_task, fanout_task, Task, SendPayload, FanoutPayload}
use slay_push.Store.{World, EnqueueFate}

abbrev pub log_fanout : Task FanoutPayload → World → World
log_fanout t w = record w { fanouts = t ∷ w.fanouts }

abbrev pub log_send : Task SendPayload → World → World
log_send t w = record w { sends = t ∷ w.sends }

-- What `client.Enqueue` returns, and what is queued then.
abbrev pub enqueue : EnqueueFate → (World → World) → M (Unit {0})
enqueue EnqueueFate.accepted log w = (ok tt, log w)
enqueue EnqueueFate.conflict log w = (err task_id_conflict, w)
enqueue (EnqueueFate.refused s) log w = (err (other s), w)
enqueue (EnqueueFate.lost s) log w = (err (other s), log w)

-- Payloads of UUIDs always marshal. A fanout task has no id of its own: asynq gives it a fresh
-- one, and a conflict is an error like any other.
unfoldable pub enqueue_fanout : FanoutPayload → M (Unit {0})
enqueue_fanout p w = enqueue (w.env.enqueue_fate w.tick) (log_fanout (fanout_task p)) (advance w)

abbrev pub forgive_conflict : Result (Unit {0}) → Result (Unit {0})
forgive_conflict (ok u) = ok tt
forgive_conflict (err e) = if is_task_id_conflict e then ok tt else err e

unfoldable pub send_now : SendPayload → M (Unit {0})
send_now p w =
    let (r, w') = enqueue (w.env.enqueue_fate w.tick) (log_send (send_task p)) (advance w) in
    (forgive_conflict r, w')

-- The data of a payload is the one part that json.Marshal may refuse.
unfoldable pub enqueue_send : SendPayload → M (Unit {0})
unfolding send_now is_task_id_conflict
enqueue_send p = do
  marshal_data ← asks (λ w. w.env.marshal_data)
  _ ← of_result (marshal_data p.payload)
  send_now p
