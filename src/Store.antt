-- ===== src/Store.antt =====
-- internal/store/postgres: the rows of the schema (models.go, migrations) and what a handler works
-- on, the world: the tables, the tasks handed to asynq, the calls made to providers, and the fates
-- of the calls that leave the process.
pub mod Monad
pub mod Keeps
pub mod Fates
pub mod Success
pub mod Moves
pub mod Effects
pub mod WellFormed
pub mod Untouched
pub mod Projects
pub mod Notifications
pub mod Recipients
pub mod Devices
pub mod Credentials
pub mod Upserts
pub mod Tenants
pub mod Counts
pub mod ApiKeys
pub mod Users
pub mod Sessions
pub mod Transaction
pub mod Listings
use slay_push.Base.{ℕ, String, Bool, Option, List}
use slay_push.Base.Json.{Data, Fields}
use slay_push.Crypto.{Aead, Bytes, MasterKey}
use slay_push.Errors.{Err, Result, Texts}
use slay_push.Base.Int.{ℤ}
use slay_push.Provider.{SendRequest, SendResult}
use slay_push.Queue.{Task, FanoutPayload, SendPayload}

pub data NotificationStatus : Type 0 where
  pending fanning_out processing completed failed : NotificationStatus

pub data RecipientStatus : Type 0 where
  queued sending sent delivered failed : RecipientStatus

pub data DeviceStatus : Type 0 where
  active stale invalid : DeviceStatus

pub data SubscriberStatus : Type 0 where
  subscribed opted_out : SubscriberStatus

pub record Project : Type 0 where
  pub id : ℕ
  pub name : String
  pub slug : String
  pub status : String
  pub created_at : ℕ

pub record Subscriber : Type 0 where
  pub id : ℕ
  pub project_id : ℕ
  pub external_id : String
  pub status : SubscriberStatus
  pub created_at : ℕ
  pub last_seen_at : ℕ

pub record Device : Type 0 where
  pub id : ℕ
  pub project_id : ℕ
  pub subscriber_id : Option ℕ
  pub token : String
  pub platform : String
  pub provider_type : String
  pub status : DeviceStatus
  pub metadata : Fields
  pub created_at : ℕ
  pub updated_at : ℕ

pub record Notification : Type 0 where
  pub id : ℕ
  pub project_id : ℕ
  pub idempotency_key : Option String
  pub title : Option String
  pub body : Option String
  pub payload : String
  pub target_spec : String
  pub status : NotificationStatus
  pub total_recipients : ℕ
  pub created_at : ℕ
  pub completed_at : Option ℕ

pub record NotificationRecipient : Type 0 where
  pub id : ℕ
  pub notification_id : ℕ
  pub device_id : ℕ
  pub provider_type : String
  pub status : RecipientStatus
  pub provider_message_id : Option String
  pub error_code : Option String
  pub error_message : Option String
  pub attempt_count : ℕ
  pub sent_at : Option ℕ
  pub failed_at : Option ℕ
  pub created_at : ℕ

pub record ProviderCredential : Type 0 where
  pub id : ℕ
  pub project_id : ℕ
  pub provider_type : String
  pub environment : String
  pub credential : Bytes
  pub wrapped_dek : Bytes
  pub is_active : Bool
  pub created_at : ℕ
  pub updated_at : ℕ

pub record ApiKey : Type 0 where
  pub id : ℕ
  pub project_id : ℕ
  pub name : String
  pub key_prefix : String
  pub key_hash : String
  pub scope : String
  pub created_at : ℕ
  pub last_used_at : Option ℕ
  pub revoked_at : Option ℕ
  pub expires_at : Option ℕ

pub record User : Type 0 where
  pub id : ℕ
  pub email : String
  pub password_hash : String
  pub role : String
  pub created_at : ℕ

pub record Session : Type 0 where
  pub id : ℕ
  pub user_id : ℕ
  pub token_hash : String
  pub created_at : ℕ
  pub last_used_at : Option ℕ
  pub expires_at : ℕ
  pub revoked_at : Option ℕ

-- What becomes of a statement sent to Postgres: it runs, it is refused before it runs, or it runs
-- and its reply is lost.
pub data QueryFate : Type 0 where
  runs : QueryFate
  refused : String → QueryFate
  lost : String → QueryFate

-- What becomes of a task handed to asynq.
pub data EnqueueFate : Type 0 where
  accepted : EnqueueFate
  conflict : EnqueueFate
  refused : String → EnqueueFate
  lost : String → EnqueueFate

-- A reply of redis_rate: an error, or how many events it allowed and when to try again.
pub data LimitReply : Type 0 where
  limit_error : String → LimitReply
  limit_result : ℕ → ℤ → LimitReply

-- The audience of a notification (targeting.Spec, and targetSpecJSON on disk).
pub record Spec : Type 0 where
  pub device_ids : List ℕ
  pub external_user_ids : List String

-- provider.Adapter: the outcome of a send may differ from call to call.
pub record Adapter : Type 0 where
  pub name : String
  pub send : Bytes → SendRequest → ℕ → SendResult × Option Err

-- What lies outside the program. The n-th contact with it is answered by the functions at n.
pub record Env : Type 0 where
  pub query_fate : ℕ → QueryFate
  pub enqueue_fate : ℕ → EnqueueFate
  pub gen_random_uuid : ℕ → ℕ
  pub now : ℕ → ℕ
  pub texts : Texts
  -- strconv.Quote, as %q prints.
  pub quote : String → String
  pub uuid_text : ℕ → String
  -- encoding/json, and what Postgres makes of a jsonb column's text.
  pub marshal_data : Data → Result String
  pub unmarshal_data : String → Result Data
  pub marshal_spec : Spec → Result String
  pub unmarshal_spec : String → Result Spec
  pub jsonb : String → Option String
  -- The outbound limiter, where the process has one: its reply for a key.
  pub outbound_limiter : Option (String → ℕ → LimitReply)
  pub adapters : String → Option Adapter
  pub aead : Aead
  pub master_key : MasterKey

-- A call of an adapter.
pub record Push : Type 0 where
  pub provider_type : String
  pub credential : Bytes
  pub request : SendRequest

pub record World : Type 0 where
  pub env : Env
  pub tick : ℕ
  pub projects : List Project
  pub subscribers : List Subscriber
  pub devices : List Device
  pub notifications : List Notification
  pub recipients : List NotificationRecipient
  pub credentials : List ProviderCredential
  pub api_keys : List ApiKey
  pub users : List User
  pub sessions : List Session
  pub fanouts : List (Task FanoutPayload)
  pub sends : List (Task SendPayload)
  pub pushes : List Push
