-- ===== src/Examples.antt =====
-- A small world: one project with one device, a notification under a key, and its recipient.
pub mod Witnesses
pub mod Parts
mod FcmSends
mod HmsSends
mod ApnsSends
mod Requests
mod Processes
mod SignIns
mod Operators
mod Deliveries
pub mod Passwords
pub mod Calls
use slay_push.Base.Int.{pos}
use slay_push.Provider.{Status}
use slay_push.Base.Json.{end}
use slay_push.Base.{true, [], ◌+◌, ◌∷◌, some, none}
use slay_push.Errors.{ok, Texts}
use slay_push.Crypto.{Aead}
use slay_push.Store.{
  NotificationStatus, DeviceStatus, QueryFate, NotificationRecipient, EnqueueFate, World, Spec,
  RecipientStatus, ProviderCredential, Project, Notification, Env, Device, Adapter,
}

abbrev pub texts : Texts
texts = record {
  no_rows_text = "no rows in result set";
  violation_text = λ c. c;
  task_id_conflict_text = "task ID conflicts with another task";
  skip_retry_text = "skip retry for the task";
}

-- Seals by leaving the bytes as they are.
abbrev pub clear_aead : Aead
clear_aead = record {
  nonce_size = 2;
  seal = λ key nonce plaintext. plaintext;
  open_ct = λ key nonce ciphertext. ok ciphertext;
  new_cipher = λ key. none;
}

-- Accepts every push.
abbrev pub accepting : Adapter
accepting = record {
  name = "expo";
  send = λ credential request n. (
    record {
      provider_message_id = "m1";
      status = Status.sent;
      retry_after = pos 0;
      failure = none;
    },
    none,
  );
}

abbrev pub spec : Spec
spec = record { device_ids = 7 ∷ []; external_user_ids = [] }

abbrev pub env : Env
env = record {
  query_fate = λ n. QueryFate.runs;
  enqueue_fate = λ n. EnqueueFate.accepted;
  gen_random_uuid = λ n. n + 100;
  now = λ n. n;
  texts = texts;
  quote = λ s. s;
  uuid_text = λ n. "uuid";
  marshal_data = λ d. ok "{}";
  unmarshal_data = λ s. ok none;
  marshal_spec = λ s. ok "{}";
  unmarshal_spec = λ s. ok spec;
  jsonb = some;
  outbound_limiter = none;
  adapters = λ name. some accepting;
  aead = clear_aead;
  master_key = record { key = [] };
}

abbrev pub project : Project
project = record { id = 1; name = "Shop"; slug = "shop"; status = "active"; created_at = 0 }

abbrev pub phone : Device
phone = record {
  id = 7;
  project_id = 1;
  subscriber_id = none;
  token = "ExponentPushToken[7]";
  platform = "ios";
  provider_type = "expo";
  status = DeviceStatus.active;
  metadata = end;
  created_at = 0;
  updated_at = 0;
}

abbrev pub note : Notification
note = record {
  id = 5;
  project_id = 1;
  idempotency_key = some "order-1";
  title = some "Shipped";
  body = none;
  payload = "{}";
  target_spec = "{}";
  status = NotificationStatus.pending;
  total_recipients = 0;
  created_at = 0;
  completed_at = none;
}

abbrev pub recipient : RecipientStatus → NotificationRecipient
recipient status = record {
  id = 9;
  notification_id = 5;
  device_id = 7;
  provider_type = "expo";
  status = status;
  provider_message_id = none;
  error_code = none;
  error_message = none;
  attempt_count = 0;
  sent_at = none;
  failed_at = none;
  created_at = 0;
}

abbrev pub credential : ProviderCredential
credential = record {
  id = 3;
  project_id = 1;
  provider_type = "expo";
  environment = "production";
  credential = 0 ∷ 0 ∷ 1 ∷ [];
  wrapped_dek = 0 ∷ 0 ∷ 4 ∷ [];
  is_active = true;
  created_at = 0;
  updated_at = 0;
}

-- Before the first notification.
abbrev pub fresh_world : World
fresh_world = record {
  env = env;
  tick = 0;
  projects = project ∷ [];
  subscribers = [];
  devices = phone ∷ [];
  notifications = [];
  recipients = [];
  credentials = credential ∷ [];
  api_keys = [];
  users = [];
  sessions = [];
  fanouts = [];
  sends = [];
  pushes = [];
}

-- With the notification.
abbrev pub noted_world : World
noted_world = record fresh_world { notifications = note ∷ [] }

-- With its recipient, at a status.
abbrev pub world_at : RecipientStatus → World
world_at status = record noted_world { recipients = recipient status ∷ [] }

-- Where asynq refuses each task.
abbrev pub refusing_world : World
refusing_world = record fresh_world {
  env = record env { enqueue_fate = λ n. EnqueueFate.refused "down" };
}
