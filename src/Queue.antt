-- ===== src/Queue.antt =====
-- internal/queue/queue.go: task payloads, and how asynq is told to retry.
pub mod Retry
pub mod Enqueue
use slay_push.Base.{ℕ, String, Bool, true, false, Option, none, some, if◌then◌else◌}
use slay_push.Base.Int.{ℤ, pos, ltb_ℤ}
use slay_push.Base.Json.{Data}
use slay_push.Base.Text.{◌<>◌}
use slay_push.Errors.{ok, err, Result, Err, as_throttled}

pub record FanoutPayload : Type 0 where
  pub notification_id : ℕ
  pub project_id : ℕ

pub record SendPayload : Type 0 where
  pub notification_id : ℕ
  pub recipient_id : ℕ
  pub device_id : ℕ
  pub project_id : ℕ
  pub provider_type : String
  pub token : String
  pub title : String
  pub body : String
  pub payload : Data

unfoldable pub send_type_for : String → String
send_type_for provider_type = "send:" <> provider_type

-- A task as it is handed to asynq: its queue and type, its retry budget, its id if it has one.
pub record Task {ℓ} (P : Type ℓ) : Type ℓ where
  pub queue : String
  pub task_type : String
  pub max_retry : ℕ
  pub task_id : Option ℕ
  pub payload : P

unfoldable pub fanout_task : FanoutPayload → Task FanoutPayload
fanout_task p = record {
  queue = "fanout";
  task_type = "fanout";
  max_retry = 3;
  task_id = none;
  payload = p;
}

unfoldable pub send_task : SendPayload → Task SendPayload
send_task p = record {
  queue = send_type_for p.provider_type;
  task_type = send_type_for p.provider_type;
  max_retry = 5;
  task_id = some p.recipient_id;
  payload = p;
}

delay_or : Option ℤ → ℤ → ℤ
delay_or none d = d
delay_or (some retry_after) d = if ltb_ℤ (pos 0) retry_after then retry_after else d

-- `default` is asynq.DefaultRetryDelayFunc(n, err, task).
unfoldable pub retry_delay_func : Err → ℤ → ℤ
unfolding delay_or
retry_delay_func e default = delay_or (as_throttled e) default

is_none : Option ℤ → Bool
is_none none = true
is_none (some _) = false

unfoldable pub is_failure : Err → Bool
unfolding is_none
is_failure e = is_none (as_throttled e)

-- `ParseRedisOpt`, of asynq.ParseRedisURI.
unfoldable pub parse_redis_opt : {O : Type 0} → (String → Result O) → String → Result O
parse_redis_opt parse_redis_uri redis_url = parse_redis_uri redis_url

-- `NewClient`, of asynq.ParseRedisURI and asynq.NewClient.
unfoldable pub new_client : {O C : Type 0} → (String → Result O) → (O → C) → String → Result C
new_client parse_redis_uri client redis_url = elim (parse_redis_opt parse_redis_uri redis_url) [
  | err e ↦ err e
  | ok opt ↦ ok (client opt)
]
