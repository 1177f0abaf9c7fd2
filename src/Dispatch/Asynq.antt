-- ===== src/Dispatch/Asynq.antt =====
-- internal/dispatch/asynq_adapter.go: the handlers that asynq calls. What encoding/json makes of a
-- task's payload is given; the attempt is what asynq keeps in the context.
use slay_push.Dispatch.Send.{handle_send}
use slay_push.Dispatch.Fanout.{handle_fanout}
use slay_push.Store.Monad.{fail, M}
use slay_push.Queue.{SendPayload, FanoutPayload}
use slay_push.Errors.{ok, skip_retry_with, err, Result}
use slay_push.Dispatch.{Attempt}

unfoldable pub asynq_fanout_handler : Result FanoutPayload → M (Unit {0})
asynq_fanout_handler (err e) = fail (skip_retry_with "unmarshal fanout payload" e)
asynq_fanout_handler (ok payload) = handle_fanout payload

unfoldable pub asynq_send_handler : Attempt → Result SendPayload → M (Unit {0})
asynq_send_handler attempt (err e) = fail (skip_retry_with "unmarshal send payload" e)
asynq_send_handler attempt (ok payload) = handle_send attempt payload
