-- ===== src/Examples/Calls.antt =====
-- Calls on the small world.
use slay_push.Dispatch.Create.Idempotent.{Encodable}
use slay_push.Examples.{env, spec}
use slay_push.Dispatch.History.{sends_to, fans_out, Op}
use slay_push.Store.{World}
use slay_push.Base.{[], refl, ◌∷◌, ◌≡◌, some, none, List}
use slay_push.Queue.{SendPayload, FanoutPayload}
use slay_push.Dispatch.Create.{CreateNotificationRequest}
use slay_push.Dispatch.{Attempt}

abbrev pub req : CreateNotificationRequest
req = record {
  idempotency_key = "order-1";
  spec = spec;
  title = "Shipped";
  body = "";
  payload = none;
}

abbrev pub fanout : FanoutPayload
fanout = record { notification_id = 5; project_id = 1 }

abbrev pub send : SendPayload
send = record {
  notification_id = 5;
  recipient_id = 9;
  device_id = 7;
  project_id = 1;
  provider_type = "expo";
  token = "ExponentPushToken[7]";
  title = "Shipped";
  body = "";
  payload = none;
}

abbrev pub first_attempt : Attempt
first_attempt = record { retry_count = some 0; max_retry = some 5 }

-- A fanout and a send.
abbrev pub history : List Op
history = fans_out fanout ∷ sends_to first_attempt send ∷ []

pub encodable : (w : World) → w.env ≡ env → Encodable req w
encodable w h = record {
  data_json = "{}";
  spec_json = "{}";
  payload = "{}";
  target_spec = "{}";
  data_encodes = rw h refl;
  spec_encodes = rw h refl;
  data_stores = rw h refl;
  spec_stores = rw h refl;
}
